-- ===== src/Drivers/Contract.antt =====
-- The contract of src/cpp_mcp/graphdb/driver.py: what the content of a graph database is, what an upsert
-- makes of it and counts, and when a driver keeps to it.
pub mod Again
use mathlib.Core.Path.{fun_ext}
use cpp_mcp.Base.{
  ℕ, ◌+◌, ◌≤◌, Text, String, List, [], ◌∷◌, Bool, true, false, not, ◌&&◌, ◌||◌, ◌≟◌, Eq, list_eq,
  nat_eq, string_eq, elem, map, length, if◌then◌else◌, ◌≡◌, ◌↔◌, inl, inr, refl, sym, ap, ◌∙◌,
  arith, All, All-map, Bool-cases, pair_eq, pair_beq_iff, beq_refl, list_beq_iff, eq_iff,
}
use cpp_mcp.Errors.{Result, ok}
use cpp_mcp.Exporter.Records.{NodeRecord, EdgeRecord}
use cpp_mcp.Drivers.Items.{edge_name}
use cpp_mcp.Drivers.Action.{Action, ◌>>=◌, pure}

-- An edge by its ends and its label.
abbrev pub Edge : Type 0
Edge = Text × (String × Text)

pub record Content : Type 0 where
  pub vertices : Text → Bool
  pub edges : Edge → Bool

abbrev pub put_vertex : Text → Content → Content
put_vertex v c = record c { vertices = λ w. (w ≟ v) || c.vertices w }

abbrev pub has_ends : Edge → Content → Bool
has_ends (source, (label, target)) c = c.vertices source && c.vertices target

-- An edge without its ends is dropped.
abbrev pub put_edge : Edge → Content → Content
put_edge e c = record c { edges = λ f. ((f ≟ e) && has_ends e c) || c.edges f }

-- The upserts: the count goes up by one for each record that comes new.
abbrev pub write_vertices : List Text → ℕ → Content → ℕ × Content
write_vertices [] k c = (k, c)
write_vertices (v ∷ vs) k c = write_vertices vs (if c.vertices v then k else k + 1) (put_vertex v c)

abbrev pub write_edges : List Edge → ℕ → Content → ℕ × Content
write_edges [] k c = (k, c)
write_edges (e ∷ es) k c =
    write_edges es (if c.edges e then k else if has_ends e c then k + 1 else k) (put_edge e c)

pub put_vertex_again : (v : Text) (c : Content) → c.vertices v ≡ true → put_vertex v c ≡ c
put_vertex_again v c h =
    ap (λ (f : Text → Bool). record c { vertices = f })
      (fun_ext λ w. ground (arith, list_beq_iff w v, h))

pub put_edge_again :
    (e : Edge) (c : Content) → (c.edges e || not (has_ends e c)) ≡ true → put_edge e c ≡ c
put_edge_again e c h =
    ap (λ (f : Edge → Bool). record c { edges = f })
      (fun_ext λ f. ground (arith, pair_beq_iff f e, h))

-- An action that answers `a` and leaves the content `c`.
abbrev pub Runs : {S A : Type 0} → (S → Content) → Action S A → S → A → Content → Type 0
Runs {S} view m s a c = (t : S) × (m s ≡ (t, ok a)) × (view t ≡ c)

pub Runs-bind :
    {S A B : Type 0} (view : S → Content) (m : Action S A) (f : A → Action S B) (s : S) (a : A)
    (c : Content) (b : B) (d : Content)
    → Runs view m s a c
    → ((t : S) → view t ≡ c → Runs view (f a) t b d)
    → Runs view (m >>= f) s b d
Runs-bind view m f s a c b d (t, ran, seen) next =
    let (u, ran', seen') = next t seen in (u, rw ran ran', seen')

pub Runs-read :
    {S A B : Type 0} (view : S → Content) (m : Action S A) (f : A → Action S B) (s : S) (a : A)
    (b : B) (d : Content)
    → m s ≡ (s, ok a)
    → Runs view (f a) s b d
    → Runs view (m >>= f) s b d
Runs-read view m f s a b d got (t, ran, seen) = (t, rw got ran, seen)

-- What the exporter calls.
pub record GraphDriver (S : Type 0) : Type 0 where
  pub upsert_nodes : List NodeRecord → Action S ℕ
  pub upsert_edges : List EdgeRecord → Action S ℕ

-- The identity of an edge, with `key` that of a USR.
abbrev pub edge_key : (Text → Text) → EdgeRecord → Edge
edge_key key e = (key e.source_usr, (edge_name e.edge_type, key e.target_usr))

abbrev pub node_keys : (Text → Text) → List NodeRecord → List Text
node_keys key batch = map (λ (n : NodeRecord). key n.usr) batch

-- A driver that keeps to the contract, with `key` the identity of a USR: an upsert answers the count
-- and leaves the content that the contract says.
pub record KeepsContract {S : Type 0} (driver : GraphDriver S) (view : S → Content)
    (key : Text → Text) : Type 0 where
  pub nodes_law :
      (batch : List NodeRecord) (s : S)
      → let w = write_vertices (node_keys key batch) 0 (view s) in
        Runs view (driver.upsert_nodes batch) s w.0 w.1
  pub edges_law :
      (batch : List EdgeRecord) (s : S)
      → let w = write_edges (map (edge_key key) batch) 0 (view s) in
        Runs view (driver.upsert_edges batch) s w.0 w.1
