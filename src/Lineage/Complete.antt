-- ===== src/Lineage/Complete.antt =====
-- domain/knowledge.py, `build_lineage_snapshot`: which papers a search that is not truncated selects.
use domain_specific_paper_ha.Prelude.{
  ℕ, zero, suc, ◌+◌, ◌≡◌, sym, ap, ◌∙◌, ◌⊎◌, inl, inr, true, false, not, ◌||◌, none, some, List, [],
  ◌∷◌, ◌++◌, length, any, arith, leb, Each, Each-map, Bool-cases, List-cases,
}
use domain_specific_paper_ha.Prelude.Text.{Uuid, text_eq, text_eq_iff}
use domain_specific_paper_ha.Prelude.Keys.{member, member-append, text_eq_refl}
use mathlib.Core.List.{Memᴰ}
use domain_specific_paper_ha.Prelude.Members.{Each-Memᴰ}
use domain_specific_paper_ha.Lineage.Edge.{GraphEdge}
use domain_specific_paper_ha.Lineage.Search.{
  keys, Search, depth_of, offer, offer_all, expand, search_loop, start, search,
}
use domain_specific_paper_ha.Lineage.Invariant.{keys-append}

abbrev pub IsKnown : Search → Uuid → Type 0
IsKnown s k = member k (keys s.depths) ≡ true

abbrev IsQueued : Search → Uuid → Type 0
IsQueued s k = member k s.queue ≡ true

behind :
    (j k : Uuid) (rest : List Uuid)
    → text_eq j k ≡ false
    → member j (k ∷ rest) ≡ true
    → member j rest ≡ true
unfolding member
behind j k rest other here = ground (arith, other, here)

module _ (max_depth max_nodes max_edges : ℕ) (outgoing : Uuid → List GraphEdge) where
  -- What a step of an untruncated search does: nothing is lost, and what is new is queued.
  record IsGrowth (s t : Search) : Type 0 where
    pub untruncated : s.truncated ≡ false
    pub known : (k : Uuid) → IsKnown s k → IsKnown t k
    pub queued : (k : Uuid) → IsQueued s k → IsQueued t k
    pub new : (k : Uuid) → IsKnown t k → IsKnown s k ⊎ IsQueued t k

  IsGrowth-same : (s : Search) → s.truncated ≡ false → IsGrowth s s
  IsGrowth-same s h = record {
    untruncated = h;
    known = λ k m. m;
    queued = λ k m. m;
    new = λ k m. inl m;
  }

  IsGrowth-then : (s t u : Search) → IsGrowth s t → IsGrowth t u → IsGrowth s u
  IsGrowth-then s t u g h = record {
    untruncated = g.untruncated;
    known = λ k m. h.known k (g.known k m);
    queued = λ k m. h.queued k (g.queued k m);
    new = λ k m. elim (h.new k m) [
      | inl old ↦ elim (g.new k old) [
        | inl older ↦ inl older
        | inr waiting ↦ inr (h.queued k waiting)
      ]
      | inr waiting ↦ inr waiting
    ];
  }

  abbrev with_target : ℕ → Search → GraphEdge → Search
  with_target depth s edge = record {
    depths = s.depths ++ (edge.target_entity_id, depth + 1) ∷ [];
    tree = s.tree ++ edge ∷ [];
    queue = s.queue ++ edge.target_entity_id ∷ [];
    truncated = s.truncated;
  }

  with_target-known :
      (depth : ℕ) (s : Search) (edge : GraphEdge) (k : Uuid)
      → member k (keys (with_target depth s edge).depths)
        ≡ (member k (keys s.depths) || text_eq k edge.target_entity_id)
  unfolding member
  with_target-known depth s edge k = ground (
    arith,
    ap (member k) (keys-append s.depths ((edge.target_entity_id, depth + 1) ∷ [])),
    member-append k (keys s.depths) (edge.target_entity_id ∷ []),
  )

  with_target-queued :
      (depth : ℕ) (s : Search) (edge : GraphEdge) (k : Uuid)
      → member k (with_target depth s edge).queue
        ≡ (member k s.queue || text_eq k edge.target_entity_id)
  unfolding member
  with_target-queued depth s edge k =
      ground (arith, member-append k s.queue (edge.target_entity_id ∷ []))

  with_target-IsGrowth :
      (depth : ℕ) (s : Search) (edge : GraphEdge)
      → s.truncated ≡ false
      → IsGrowth s (with_target depth s edge)
  with_target-IsGrowth depth s edge h = record {
    untruncated = h;
    known = λ k m. ground (arith, m, with_target-known depth s edge k);
    queued = λ k m. ground (arith, m, with_target-queued depth s edge k);
    new = λ k m.
        ground (arith, m, with_target-known depth s edge k, with_target-queued depth s edge k);
  }

  offer-IsGrowth :
      (depth : ℕ) (s : Search) (edge : GraphEdge)
      → (offer max_depth max_nodes max_edges outgoing depth s edge).truncated ≡ false
      → IsGrowth s (offer max_depth max_nodes max_edges outgoing depth s edge)
        × IsKnown (offer max_depth max_nodes max_edges outgoing depth s edge) edge.target_entity_id
  unfolding offer
  offer-IsGrowth depth s edge h = elim (Bool-cases (member edge.target_entity_id (keys s.depths))) [
    | inl here ↦ rw here (IsGrowth-same s (simp here at h), here)
    | inr absent ↦
        elim (Bool-cases (leb max_nodes (length s.depths) || leb max_edges (length s.tree))) [
          | inl full ↦ let stuck : true ≡ false = simp (absent, full) at h in cc
          | inr room ↦
              rw (absent, room)
                (
                  with_target-IsGrowth depth s edge (simp (absent, room) at h),
                  ground (
                    arith,
                    with_target-known depth s edge edge.target_entity_id,
                    text_eq_refl edge.target_entity_id,
                  ),
                )
        ]
  ]

  offer_all-IsGrowth :
      (depth : ℕ) (s : Search) (edges : List GraphEdge)
      → (offer_all max_depth max_nodes max_edges outgoing depth s edges).truncated ≡ false
      → IsGrowth s (offer_all max_depth max_nodes max_edges outgoing depth s edges)
        × Each
            (λ e.
              IsKnown
                (offer_all max_depth max_nodes max_edges outgoing depth s edges)
                e.target_entity_id)
            edges
  unfolding offer_all
  offer_all-IsGrowth depth s [] h = (IsGrowth-same s h, tt)
  offer_all-IsGrowth depth s (edge ∷ edges) h =
      let s' = offer max_depth max_nodes max_edges outgoing depth s edge in
      let (later, known) = offer_all-IsGrowth depth s' edges h in
      let (first, here) = offer-IsGrowth depth s edge later.untruncated in
      (
        IsGrowth-then s s' (offer_all max_depth max_nodes max_edges outgoing depth s' edges) first
            later,
        (later.known edge.target_entity_id here, known),
      )

  none_left :
      (s : Search) (edges : List GraphEdge)
      → any (λ edge. not (member edge.target_entity_id (keys s.depths))) edges ≡ false
      → Each (λ e. IsKnown s e.target_entity_id) edges
  none_left s [] h = tt
  none_left s (edge ∷ edges) h = elim (Bool-cases (member edge.target_entity_id (keys s.depths))) [
    | inl here ↦ (here, none_left s edges (simp here at h))
    | inr absent ↦ let stuck : true ≡ false = simp absent at h in cc
  ]

  expand-IsGrowth :
      (s : Search) (k : Uuid)
      → (expand max_depth max_nodes max_edges outgoing s k).truncated ≡ false
      → IsGrowth s (expand max_depth max_nodes max_edges outgoing s k)
        × Each
            (λ e. IsKnown (expand max_depth max_nodes max_edges outgoing s k) e.target_entity_id)
            (outgoing k)
  unfolding expand
  expand-IsGrowth s k h = elim (Bool-cases (leb max_depth (depth_of s.depths k))) [
    | inl deep ↦
        elim (Bool-cases
          (any (λ edge. not (member edge.target_entity_id (keys s.depths))) (outgoing k))) [
            | inl cut ↦ let stuck : true ≡ false = simp (deep, cut) at h in cc
            | inr all ↦
                rw (deep, all)
                  (IsGrowth-same s (simp (deep, all) at h), none_left s (outgoing k) all)
          ]
    | inr shallow ↦
        rw shallow (offer_all-IsGrowth (depth_of s.depths k) s (outgoing k) (simp shallow at h))
  ]

  -- Each selected paper waits in the queue or has all its targets selected.
  abbrev IsClosed : Search → Type 0
  IsClosed s =
      (k : Uuid)
      → IsKnown s k
      → IsQueued s k ⊎ Each (λ e. IsKnown s e.target_entity_id) (outgoing k)

  expand-IsClosed :
      (s : Search) (k : Uuid) (rest : List Uuid)
      → s.queue ≡ k ∷ rest
      → (expand max_depth max_nodes max_edges outgoing (record s { queue = rest }) k).truncated
        ≡ false
      → IsClosed s
      → IsClosed (expand max_depth max_nodes max_edges outgoing (record s { queue = rest }) k)
  expand-IsClosed s k rest e h closed j known =
      let (grown, targets) = expand-IsGrowth (record s { queue = rest }) k h in
      elim (grown.new j known) [
        | inr waiting ↦ inl waiting
        | inl old ↦ elim (closed j old) [
          | inr done ↦ inr (
              Each-map (λ e. IsKnown s e.target_entity_id)
                (λ e.
                  IsKnown
                    (expand max_depth max_nodes max_edges outgoing (record s { queue = rest }) k)
                    e.target_entity_id)
                (λ e. grown.known e.target_entity_id) (outgoing j) done)
          | inl queued ↦ elim (Bool-cases (text_eq j k)) [
            | inl same ↦ rw ((text_eq_iff j k).0 same) (inr targets)
            | inr other ↦
                inl (grown.queued j (behind j k rest other (sym (ap (member j) e) ∙ queued)))
          ]
        ]
      ]

  ended :
      (fuel : ℕ) (s t : Search)
      → s.queue ≡ []
      → search_loop max_depth max_nodes max_edges outgoing fuel s ≡ some t
      → s ≡ t
  unfolding search_loop
  ended zero s t empty e = let same : some s ≡ some t = simp (empty, search_loop) at e in cc
  ended (suc fuel) s t empty e = let same : some s ≡ some t = simp (empty, search_loop) at e in cc

  loop-untruncated :
      (fuel : ℕ) (s t : Search)
      → search_loop max_depth max_nodes max_edges outgoing fuel s ≡ some t
      → t.truncated ≡ false
      → s.truncated ≡ false
  unfolding search_loop
  loop-untruncated zero s t e h = elim (List-cases s.queue) [
    | inl empty ↦ ap (λ u. u.truncated) (ended zero s t empty e) ∙ h
    | inr (k, rest, q) ↦ let stuck : none ≡ some t = simp (q, search_loop) at e in cc
  ]
  loop-untruncated (suc fuel) s t e h = elim (List-cases s.queue) [
    | inl empty ↦ ap (λ u. u.truncated) (ended (suc fuel) s t empty e) ∙ h
    | inr (k, rest, q) ↦
        let s' = record s { queue = rest } in
        let next = expand max_depth max_nodes max_edges outgoing s' k in
        let later = loop-untruncated fuel next t (simp (q, search_loop) at e) h in
        (expand-IsGrowth s' k later).0.untruncated
  ]

  all_done :
      (s t : Search)
      → s ≡ t
      → s.queue ≡ []
      → IsClosed s
      → (k : Uuid) → IsKnown t k
      → Each (λ e. IsKnown t e.target_entity_id) (outgoing k)
  unfolding member
  all_done s t same empty closed k known =
      let here : t ≡ s = sym same in
      rw here (elim (closed k (ap (λ u. member k (keys u.depths)) (sym here) ∙ known)) [
        | inl waiting ↦ let stuck : false ≡ true = sym (ap (member k) empty) ∙ waiting in cc
        | inr done ↦ done
      ])

  loop-IsClosed :
      (fuel : ℕ) (s t : Search)
      → search_loop max_depth max_nodes max_edges outgoing fuel s ≡ some t
      → t.truncated ≡ false
      → IsClosed s
      → (k : Uuid) → IsKnown t k
      → Each (λ e. IsKnown t e.target_entity_id) (outgoing k)
  unfolding search_loop
  loop-IsClosed zero s t e h closed k known = elim (List-cases s.queue) [
    | inl empty ↦ all_done s t (ended zero s t empty e) empty closed k known
    | inr (j, rest, q) ↦ let stuck : none ≡ some t = simp (q, search_loop) at e in cc
  ]
  loop-IsClosed (suc fuel) s t e h closed k known = elim (List-cases s.queue) [
    | inl empty ↦ all_done s t (ended (suc fuel) s t empty e) empty closed k known
    | inr (j, rest, q) ↦
        let next = expand max_depth max_nodes max_edges outgoing (record s { queue = rest }) j in
        let later = loop-untruncated fuel next t (simp (q, search_loop) at e) h in
        loop-IsClosed fuel next t (simp (q, search_loop) at e) h
          (expand-IsClosed s j rest q later closed) k known
  ]

  start-IsClosed : (root : Uuid) → IsClosed (start max_depth max_nodes max_edges outgoing root)
  start-IsClosed root k known = inl known

  loop-IsKnown :
      (fuel : ℕ) (s t : Search)
      → search_loop max_depth max_nodes max_edges outgoing fuel s ≡ some t
      → t.truncated ≡ false
      → (k : Uuid) → IsKnown s k
      → IsKnown t k
  unfolding search_loop
  loop-IsKnown zero s t e h k known = elim (List-cases s.queue) [
    | inl empty ↦ ap (λ u. member k (keys u.depths)) (sym (ended zero s t empty e)) ∙ known
    | inr (j, rest, q) ↦ let stuck : none ≡ some t = simp (q, search_loop) at e in cc
  ]
  loop-IsKnown (suc fuel) s t e h k known = elim (List-cases s.queue) [
    | inl empty ↦ ap (λ u. member k (keys u.depths)) (sym (ended (suc fuel) s t empty e)) ∙ known
    | inr (j, rest, q) ↦
        let s' = record s { queue = rest } in
        let next = expand max_depth max_nodes max_edges outgoing s' j in
        let later = simp (q, search_loop) at e in
        let grown = (expand-IsGrowth s' j (loop-untruncated fuel next t later h)).0 in
        loop-IsKnown fuel next t later h k (grown.known k known)
  ]

  -- The papers to which a chain of offered edges leads from the root.
  pub data IsReachable (root : Uuid) : Uuid → Type 0 where
    at_root : IsReachable root root
    by_edge :
        (k : Uuid) (e : GraphEdge)
        → IsReachable root k
        → Memᴰ e (outgoing k)
        → IsReachable root e.target_entity_id

  -- Where the search returns and was not truncated, every paper to which a chain of offered edges
  -- leads from the root is selected.
  pub search-IsKnown :
      (root : Uuid) (t : Search)
      → search max_depth max_nodes max_edges outgoing root ≡ some t
      → t.truncated ≡ false
      → (k : Uuid) → IsReachable root k
      → IsKnown t k
  unfolding search member
  search-IsKnown root t e h k at_root =
      loop-IsKnown max_nodes (start max_depth max_nodes max_edges outgoing root) t e h root
        (ground (arith, text_eq_refl root))
  search-IsKnown root t e h k (by_edge j edge before offered) =
      Each-Memᴰ (λ e. IsKnown t e.target_entity_id) (outgoing j) edge
        (loop-IsClosed max_nodes (start max_depth max_nodes max_edges outgoing root) t e h
          (start-IsClosed root) j (search-IsKnown root t e h j before))
        offered
