-- ===== src/Query/Neo4j/Coerce.antt =====
-- `_coerce_value` and `_coerce_record` of src/cpp_mcp/graphdb/neo4j_query_executor.py. The round trip of other
-- values through JSON is a parameter.
use cpp_mcp.Base.{
  Text, List, Option, none, some, codes, string_eq, list_eq, nat_eq, ◌≡◌, refl, ◌≟◌, if◌then◌else◌,
  Bool, true, false, ◌∙◌, arith, ap, list_beq_iff,
}
use cpp_mcp.Introspect.Entries.{sorted_names}

mutual
  -- A value of a result: the types of the driver, and the others.
  pub data Value (S : Type 0) : Type 0 where
    node : List Text → Fields S → Value S
    relationship : Text → Option Text → Option Text → Fields S → Value S
    path : Values S → Values S → Value S
    plain : S → Value S

  pub data Values (S : Type 0) : Type 0 where
    nil : Values S
    cons : Value S → Values S → Values S

  -- The items of a mapping, in its order.
  pub data Fields (S : Type 0) : Type 0 where
    blank : Fields S
    entry : Text → Value S → Fields S → Fields S

mutual
  -- What is sent: JSON from the round trip, a string or null, a list of strings, a list, an object.
  pub data Coerced (J : Type 0) : Type 0 where
    json : J → Coerced J
    word : Option Text → Coerced J
    names : List Text → Coerced J
    array : Items J → Coerced J
    object : Members J → Coerced J

  pub data Items (J : Type 0) : Type 0 where
    done : Items J
    item : Coerced J → Items J → Items J

  -- A dict, in its order.
  pub data Members (J : Type 0) : Type 0 where
    empty : Members J
    member : Text → Coerced J → Members J → Members J

module _ {J : Type 0} where
  unfoldable pub find : Text → Members J → Option (Coerced J)
  find k empty = none
  find k (member j v ms) = if j ≟ k then some v else find k ms

  -- `d[key] = value`
  unfoldable pub set_member : Text → Coerced J → Members J → Members J
  set_member k v empty = member k v empty
  set_member k v (member j w ms) = if j ≟ k then member j v ms else member j w (set_member k v ms)

  find-set_member :
      (k j : Text) (v : Coerced J) (ms : Members J)
      → find k (set_member j v ms) ≡ (if j ≟ k then some v else find k ms)
  unfolding find set_member
  find-set_member k j v empty = ground arith
  find-set_member k j v (member i w ms) =
      ground (arith, list_beq_iff i j, list_beq_iff j k, list_beq_iff i k, find-set_member k j v ms)

module _ {S : Type 0} where
  abbrev later : Option (Value S) → Option (Value S) → Option (Value S)
  later none earlier = earlier
  later (some v) earlier = some v

  -- The last value under a key.
  unfoldable pub last_of : Text → Fields S → Option (Value S)
  last_of k blank = none
  last_of k (entry j v fields) = later (last_of k fields) (if j ≟ k then some v else none)

module _ {S J : Type 0} (round_trip : S → J) where
  unfoldable mutual
    unfolding sorted_names set_member

    pub coerce_value : Value S → Coerced J
    coerce_value (node labels props) =
        object (update props (member (codes "_labels") (names (sorted_names labels)) empty))
    coerce_value (relationship type start end props) = object (
        update props (
          member (codes "_type") (word (some type))
            (member (codes "_start") (word start) (member (codes "_end") (word end) empty))))
    coerce_value (path nodes rels) = object (
        member (codes "_nodes") (array (coerce_values nodes))
          (member (codes "_rels") (array (coerce_values rels)) empty))
    coerce_value (plain s) = json (round_trip s)

    pub coerce_values : Values S → Items J
    coerce_values nil = done
    coerce_values (cons v vs) = item (coerce_value v) (coerce_values vs)

    -- `coerced.update({k: _coerce_value(v) for k, v in value.items()})`
    pub update : Fields S → Members J → Members J
    update blank ms = ms
    update (entry k v fields) ms = update fields (set_member k (coerce_value v) ms)

  -- A record, as the items of its dict.
  unfoldable pub coerce_record : Fields S → Members J
  coerce_record record_ = update record_ empty

  abbrev pub found : Option (Value S) → Option (Coerced J) → Option (Coerced J)
  found none otherwise = otherwise
  found (some v) otherwise = some (coerce_value v)

  found-later :
      (o : Option (Value S)) (b : Bool) (v : Value S) (x : Option (Coerced J))
      → found o (if b then some (coerce_value v) else x)
        ≡ found (later o (if b then some v else none)) x
  found-later (some w) b v x = refl
  found-later none true v x = refl
  found-later none false v x = refl

  find-update :
      (k : Text) (fields : Fields S) (ms : Members J)
      → find k (update fields ms) ≡ found (last_of k fields) (find k ms)
  unfolding coerce_value last_of
  find-update k blank ms = refl
  find-update k (entry j v fields) ms =
      find-update k fields (set_member j (coerce_value v) ms)
      ∙ ap (found (last_of k fields)) (find-set_member k j (coerce_value v) ms)
      ∙ found-later (last_of k fields) (j ≟ k) v (find k ms)

  -- The object of a node has its properties, each coerced, and under "_labels" the sorted labels; but
  -- a property of that name takes their place.
  pub node_members :
      (labels : List Text) (props : Fields S)
      → (ms : Members J) × (coerce_value (node labels props) ≡ object ms)
        × ((k : Text)
            → find k ms
              ≡ found
                  (last_of k props)
                  (if codes "_labels" ≟ k then some (names (sorted_names labels)) else none))
  unfolding coerce_value find
  node_members labels props =
      let base = member (codes "_labels") (names (sorted_names labels)) empty in
      (update props base, refl, λ k. find-update k props base)
