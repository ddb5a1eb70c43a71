-- ===== src/Lineage/Invariant.antt =====
-- What the search has selected: a tree of edges from the root, one for each other node, that goes
-- one depth down at each edge.
use domain_specific_paper_ha.Prelude.{
  ℕ, ◌+◌, ◌≤◌, ◌≡◌, refl, ap, true, false, List, [], ◌∷◌, ◌++◌, arith, length, Each, if◌then◌else◌,
}
use domain_specific_paper_ha.Prelude.Text.{Uuid, text_eq, text_eq_iff}
use domain_specific_paper_ha.Prelude.Keys.{member, member-append, distinct, text_eq_refl}
use domain_specific_paper_ha.Lineage.Edge.{GraphEdge}
use domain_specific_paper_ha.Lineage.Search.{Depths, keys, Search, depth_of}

abbrev pub targets : List GraphEdge → List Uuid
targets [] = []
targets (e ∷ es) = e.target_entity_id ∷ targets es

pub keys-append : (ds es : Depths) → keys (ds ++ es) ≡ keys ds ++ keys es
keys-append [] es = refl
keys-append ((k, d) ∷ ds) es = ap (◌∷◌ k) (keys-append ds es)

pub targets-append : (es fs : List GraphEdge) → targets (es ++ fs) ≡ targets es ++ targets fs
targets-append [] fs = refl
targets-append (e ∷ es) fs = ap (◌∷◌ e.target_entity_id) (targets-append es fs)

-- A new key has its depth, and the others keep theirs.
pub depth_of-append_one :
    (ds : Depths) (k : Uuid) (d : ℕ) (j : Uuid)
    → member k (keys ds) ≡ false
    → depth_of (ds ++ (k, d) ∷ []) j ≡ (if text_eq j k then d else depth_of ds j)
unfolding depth_of member
depth_of-append_one [] k d j h = refl
depth_of-append_one ((i, c) ∷ ds) k d j h =
    ground (arith, depth_of-append_one ds k d j, text_eq_iff k i, text_eq_iff j i, text_eq_iff j k)

-- A node with a depth of its own.
pub record IsSelected (ds : Depths) (k : Uuid) (d : ℕ) : Type 0 where
  pub here : member k (keys ds) ≡ true
  pub depth : depth_of ds k ≡ d

pub IsSelected-append :
    (ds : Depths) (k j : Uuid) (d c : ℕ)
    → member k (keys ds) ≡ false
    → IsSelected ds j c
    → IsSelected (ds ++ (k, d) ∷ []) j c
unfolding member
IsSelected-append ds k j d c new old = record {
  here = ground (arith, keys-append ds ((k, d) ∷ []), member-append j (keys ds) (k ∷ []), old.here);
  depth = ground (arith, depth_of-append_one ds k d j new, text_eq_iff j k, old.here, old.depth);
}

pub IsSelected-new :
    (ds : Depths) (k : Uuid) (d : ℕ)
    → member k (keys ds) ≡ false
    → IsSelected (ds ++ (k, d) ∷ []) k d
unfolding member
IsSelected-new ds k d new = record {
  here =
      ground
        (arith, keys-append ds ((k, d) ∷ []), member-append k (keys ds) (k ∷ []), text_eq_refl k);
  depth = ground (arith, depth_of-append_one ds k d k new, text_eq_refl k);
}

-- An edge between selected nodes to the one a step deeper, which was offered.
pub record IsTreeEdge (Offered : GraphEdge → Type 0) (ds : Depths) (e : GraphEdge) : Type 0 where
  pub source : member e.source_entity_id (keys ds) ≡ true
  pub target : member e.target_entity_id (keys ds) ≡ true
  pub step : depth_of ds e.target_entity_id ≡ depth_of ds e.source_entity_id + 1
  pub offered : Offered e

-- What holds of the search's state in each round.
pub record IsTree (Offered : GraphEdge → Type 0) (max_depth max_nodes max_edges : ℕ) (root : Uuid)
    (s : Search) : Type 0 where
  pub order : keys s.depths ≡ root ∷ targets s.tree
  pub once : distinct (keys s.depths) ≡ true
  pub nodes : length s.depths ≤ max_nodes
  pub edges : length s.tree ≤ max_edges
  pub queued : (k : Uuid) → member k s.queue ≡ true → member k (keys s.depths) ≡ true
  pub deep : (k : Uuid) → member k (keys s.depths) ≡ true → depth_of s.depths k ≤ max_depth
  pub at_root : depth_of s.depths root ≡ 0
  pub steps : Each (IsTreeEdge Offered s.depths) s.tree

-- An edge of `outgoing k`.
pub record IsOffer (Offered : GraphEdge → Type 0) (k : Uuid) (e : GraphEdge) : Type 0 where
  pub source : e.source_entity_id ≡ k
  pub offered : Offered e

pub IsTreeEdge-append :
    (Offered : GraphEdge → Type 0) (ds : Depths) (k : Uuid) (d : ℕ)
    → member k (keys ds) ≡ false
    → (e : GraphEdge) → IsTreeEdge Offered ds e
    → IsTreeEdge Offered (ds ++ (k, d) ∷ []) e
IsTreeEdge-append Offered ds k d new e h =
    let from =
      IsSelected-append ds k e.source_entity_id d (depth_of ds e.source_entity_id) new
        (record { here = h.source; depth = refl }) in
    let to =
      IsSelected-append ds k e.target_entity_id d (depth_of ds e.target_entity_id) new
        (record { here = h.target; depth = refl }) in
    record {
      source = from.here;
      target = to.here;
      step = omega (arith, to.depth, h.step, from.depth);
      offered = h.offered;
    }
