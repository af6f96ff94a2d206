-- ===== src/Drivers/Cognee/Index.antt =====
-- What the upserts of src/cpp_mcp/graphdb/cognee_driver.py count, keep in the index and send.
use mathlib.Core.Path.{fun_ext}
use mathlib.Core.List.{append-nil, append_assoc}
use cpp_mcp.Base.{
  ℕ, ◌+◌, Text, List, [], ◌∷◌, ◌++◌, map, some, Bool, true, ◌||◌, Eq, list_eq, nat_eq, string_eq,
  pair_eq, list_beq_iff, if◌then◌else◌, ◌≡◌, refl, ap, sym, ◌∙◌, arith, codes,
}
use cpp_mcp.OrderedDict.{get, set_item}
use cpp_mcp.Errors.{ExceptionType, Result, ok, raise}
use cpp_mcp.Exporter.Variables.{NodeType}
use cpp_mcp.Exporter.Records.{NodeRecord, TypeProps, type_props}
use cpp_mcp.Drivers.Action.{pure, >>=-ok, >>=-raise}
use cpp_mcp.Drivers.Contract.{Content, put_vertex, write_vertices}
use cpp_mcp.Drivers.Items.{Item, scalar, text, node_items}
use cpp_mcp.Drivers.Cognee.{
  Session, Transport, has_key, node_key, node_document, send_node, upsert_node, upsert_nodes_from,
  upsert_nodes,
}

has_key-set_item {ℓ} :
    {K V : Type ℓ} ⦃e : Eq K⦄ (k j : K) (v : V) (l : List (K × V))
    → has_key k (set_item j v l) ≡ (e.beq k j || has_key k l)
unfolding get set_item
has_key-set_item ⦃e⦄ k j v [] = ground (arith, e.beq_iff j k, e.beq_iff k j)
has_key-set_item ⦃e⦄ k j v ((i, w) ∷ l) =
    ground
      (arith, e.beq_iff i j, e.beq_iff j k, e.beq_iff k j, e.beq_iff i k, has_key-set_item k j v l)

-- The session's index, as a content of the contract.
abbrev pub indexed : Session → Content
indexed session = record {
  vertices = λ v. has_key v session.node_index;
  edges = λ t. has_key t session.edge_index;
}

abbrev pub node_usrs : List NodeRecord → List Text
node_usrs = map (λ (n : NodeRecord). n.usr)

-- What a call of the transport is given: the key, the document, the dataset and the node set.
abbrev pub Upload : Type 0
Upload = Text × (List Item × (Text × List Text))

-- A transport that raises nothing, with the log of what it was given.
pub record Delivers {S : Type 0} (ingest : Transport S) (uploads : S → List Upload) : Type 0 where
  pub answers :
      (key : Text) (document : List Item) (dataset : Text) (node_set : List Text) (s : S)
      → (ingest key document dataset node_set s).1 ≡ ok tt
  pub logged :
      (key : Text) (document : List Item) (dataset : Text) (node_set : List Text) (s : S)
      → uploads (ingest key document dataset node_set s).0
        ≡ uploads s ++ (key, (document, (dataset, node_set))) ∷ []

module _ {S : Type 0} (sha256 : Text → Text) (ingest : Transport S) where
  -- The session with a node in its index.
  abbrev with_node : NodeRecord → Session → Session
  with_node n session = record session { node_index = set_item n.usr n session.node_index }

  abbrev sent_node : NodeRecord → Session → S → S × Result (Unit {0})
  sent_node n session s =
      ingest (node_key sha256 ingest n.usr) (node_document n) session.dataset session.node_set s

  -- The upload of a node: under the key of its USR its own document, for the dataset and the node set
  -- of the session.
  abbrev pub upload_of : Session → NodeRecord → Upload
  upload_of session n =
      (node_key sha256 ingest n.usr, (node_document n, (session.dataset, session.node_set)))

  upsert_node_ok :
      (n : NodeRecord) (k : ℕ) (session : Session) (s : S)
      → (sent_node n session s).1 ≡ ok tt
      → upsert_node sha256 ingest n k (session, s) ≡ (
        (with_node n session, (sent_node n session s).0),
        ok (if has_key n.usr session.node_index then k else k + 1),
      )
  unfolding upsert_node
  upsert_node_ok n k session s h =
      >>=-ok (send_node sha256 ingest n)
        (λ _. pure (if has_key n.usr session.node_index then k else k + 1)) (with_node n session, s)
        tt h

  indexed-with_node :
      (n : NodeRecord) (session : Session)
      → indexed (with_node n session) ≡ put_vertex n.usr (indexed session)
  indexed-with_node n session =
      ap (λ (f : Text → Bool). record (indexed session) { vertices = f })
        (fun_ext λ w. has_key-set_item w n.usr n session.node_index)

  -- What an upsert of nodes leaves and answers, if the transport delivers.
  record Sends (uploads : S → List Upload) (batch : List NodeRecord) (k : ℕ) (session : Session)
      (s : S) (out : (Session × S) × Result ℕ) : Type 0 where
    answer : out.1 ≡ ok (write_vertices (node_usrs batch) k (indexed session)).0
    content : indexed out.0.0 ≡ (write_vertices (node_usrs batch) k (indexed session)).1
    all_sent : uploads out.0.1 ≡ uploads s ++ map (upload_of session) batch

  upsert_nodes_from-Sends :
      (uploads : S → List Upload)
      → Delivers ingest uploads
      → (batch : List NodeRecord) (k : ℕ) (session : Session) (s : S)
      → Sends uploads batch k session s (upsert_nodes_from sha256 ingest batch k (session, s))
  unfolding upsert_nodes_from
  upsert_nodes_from-Sends uploads d [] k session s = record {
    answer = refl;
    content = refl;
    all_sent = sym (append-nil (uploads s));
  }
  upsert_nodes_from-Sends uploads d (n ∷ batch) k session s =
      let key = node_key sha256 ingest n.usr in
      let delivered = d.answers key (node_document n) session.dataset session.node_set s in
      let one_more = d.logged key (node_document n) session.dataset session.node_set s in
      let count = if has_key n.usr session.node_index then k else k + 1 in
      let s' = (sent_node n session s).0 in
      let ih = upsert_nodes_from-Sends uploads d batch count (with_node n session) s' in
      let first = upsert_node_ok n k session s delivered in
      let step =
        >>=-ok (upsert_node sha256 ingest n k) (upsert_nodes_from sha256 ingest batch) (session, s)
          count (ap (λ (o : (Session × S) × Result ℕ). o.1) first)
        ∙ ap (λ (o : (Session × S) × Result ℕ). upsert_nodes_from sha256 ingest batch count o.0)
            first in
      let indexes = indexed-with_node n session in
      rw step (record {
        answer =
            ih.answer
            ∙ ap (λ (c : Content). ok (write_vertices (node_usrs batch) count c).0) indexes;
        content =
            ih.content ∙ ap (λ (c : Content). (write_vertices (node_usrs batch) count c).1) indexes;
        all_sent =
            ih.all_sent
            ∙ ap (λ log. log ++ map (upload_of session) batch) one_more
            ∙ append_assoc (uploads s) (upload_of session n ∷ []) (map (upload_of session) batch);
      })

  upsert_node_raises :
      (n : NodeRecord) (k : ℕ) (session : Session) (s : S) (e : ExceptionType)
      → (sent_node n session s).1 ≡ raise e
      → upsert_node sha256 ingest n k (session, s)
        ≡ ((with_node n session, (sent_node n session s).0), raise e)
  unfolding upsert_node
  upsert_node_raises n k session s e h =
      >>=-raise (send_node sha256 ingest n)
        (λ _. pure (if has_key n.usr session.node_index then k else k + 1)) (with_node n session, s)
        e h

  connected_upsert :
      (batch : List NodeRecord) (session : Session) (s : S)
      → session.connected ≡ true
      → upsert_nodes sha256 ingest batch (session, s)
        ≡ upsert_nodes_from sha256 ingest batch 0 (session, s)
  unfolding upsert_nodes
  connected_upsert batch session s on =
      ap
        (λ (b : Bool).
          if b then upsert_nodes_from sha256 ingest batch 0 (session, s) else ((session, s), ok 0))
        on

  -- A node whose sending raises is in the index all the same, so that a later upsert of it counts
  -- nothing: the first node of a batch on a connected session.
  pub failed_node_is_known :
      (n : NodeRecord) (batch : List NodeRecord) (session : Session) (s : S) (e : ExceptionType)
      → session.connected ≡ true
      → (sent_node n session s).1 ≡ raise e
      → ((upsert_nodes sha256 ingest (n ∷ batch) (session, s)).1 ≡ raise e)
        × ((indexed (upsert_nodes sha256 ingest (n ∷ batch) (session, s)).0.0).vertices n.usr
            ≡ true)
  unfolding upsert_nodes_from
  failed_node_is_known n batch session s e on h =
      let first = upsert_node_raises n 0 session s e h in
      let out =
        connected_upsert (n ∷ batch) session s on
        ∙ >>=-raise (upsert_node sha256 ingest n 0) (upsert_nodes_from sha256 ingest batch)
            (session, s) e (ap (λ (o : (Session × S) × Result ℕ). o.1) first)
        ∙ ap (λ (o : (Session × S) × Result ℕ). (o.0, raise e)) first in
      let known = has_key-set_item n.usr n.usr n session.node_index in
      (
        ap (λ (o : (Session × S) × Result ℕ). o.1) out,
        ap (λ (o : (Session × S) × Result ℕ). has_key n.usr o.0.0.node_index) out
            ∙ known
            ∙ ground (arith, list_beq_iff n.usr n.usr),
      )

-- With a transport that raises nothing, an upsert of nodes on a connected session counts and indexes
-- the nodes as the contract of the drivers says, and the transport is given exactly one upload for each
-- record of the batch, in their order, also for those that the index has already: each under the key of
-- its USR, with its own document, and with the dataset and the node set of the session.
pub upsert_nodes_sends :
    {S : Type 0} (sha256 : Text → Text) (ingest : Transport S) (uploads : S → List Upload)
    → Delivers ingest uploads
    → (batch : List NodeRecord) (session : Session) (s : S) → session.connected ≡ true
    → ((upsert_nodes sha256 ingest batch (session, s)).1
        ≡ ok (write_vertices (node_usrs batch) 0 (indexed session)).0)
      × (indexed (upsert_nodes sha256 ingest batch (session, s)).0.0
          ≡ (write_vertices (node_usrs batch) 0 (indexed session)).1)
      × (uploads (upsert_nodes sha256 ingest batch (session, s)).0.1
          ≡ uploads s ++ map (upload_of sha256 ingest session) batch)
upsert_nodes_sends {S} sha256 ingest uploads d batch session s on =
    let v = upsert_nodes_from-Sends sha256 ingest uploads d batch 0 session s in
    let out = connected_upsert sha256 ingest batch session s on in
    (
      ap (λ (o : (Session × S) × Result ℕ). o.1) out ∙ v.answer,
      ap (λ (o : (Session × S) × Result ℕ). indexed o.0.0) out ∙ v.content,
      ap (λ (o : (Session × S) × Result ℕ). uploads o.0.1) out ∙ v.all_sent,
    )

-- The document of a type node is not marked as that of a node: the kind of the type takes the place
-- of the mark.
pub type_document_kind :
    (label : NodeType) (usr : Text) (p : TypeProps)
    → get "kind" (node_document (record { label = label; usr = usr; props = type_props p }))
      ≡ some (scalar (text (codes p.kind)))
unfolding node_document node_items get
type_document_kind label usr p = refl
