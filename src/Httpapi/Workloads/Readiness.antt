-- ===== src/Httpapi/Workloads/Readiness.antt =====
-- When a pod is shown as ready, and which containers it shows.
use tenant_deck.Base.{
  ◌≡◌, ◌≢◌, refl, sym, ◌∙◌, ltb, length, inl, inr, ◌==◌, Bool, true, false, List, [], ◌∷◌, ◌++◌,
  all, append_assoc, append-nil, arith, Bool-cases, map, pos, if◌then◌else◌, ◌&&◌,
}
use tenant_deck.Httpapi.Workloads.Pods.{
  ContainerSummary, SpecContainer, Pod, collect, fall_back, summary_of,
}

-- A container of a pod that has reported nothing.
abbrev pub unreported : SpecContainer → ContainerSummary
unreported c = record { name = c.name; image = c.image; ready = false; restart_count = pos 0 }

collect_containers :
    (done : List ContainerSummary) (flag : Bool) (statuses : List ContainerSummary)
    → (collect done flag statuses).0 ≡ done ++ statuses
unfolding collect
collect_containers done flag [] = sym (append-nil done)
collect_containers done flag (cs ∷ statuses) =
    collect_containers (done ++ cs ∷ []) _ statuses ∙ append_assoc done (cs ∷ []) statuses

collect_ready :
    (done : List ContainerSummary) (flag : Bool) (statuses : List ContainerSummary)
    → (collect done flag statuses).1 ≡ (flag && all (λ cs. cs.ready) statuses)
unfolding collect
collect_ready done flag [] = elim (Bool-cases flag) [ inl h ↦ rw h refl | inr h ↦ rw h refl ]
collect_ready done flag (cs ∷ statuses) =
    collect_ready (done ++ cs ∷ []) (if cs.ready then flag else false) statuses ∙ ground arith

fall_back-map :
    (done : List ContainerSummary) (cs : List SpecContainer)
    → fall_back done cs ≡ done ++ map unreported cs
unfolding fall_back
fall_back-map done [] = sym (append-nil done)
fall_back-map done (c ∷ cs) =
    fall_back-map (done ++ unreported c ∷ []) cs
    ∙ append_assoc done (unreported c ∷ []) (map unreported cs)

length-reported :
    (statuses : List ContainerSummary)
    → statuses ≢ []
    → (ltb 0 (length statuses) ≡ true) × ((length statuses == 0) ≡ false)
length-reported [] reported = ground arith
length-reported (cs ∷ statuses) reported = (ground arith, ground arith)

-- A pod that has reported container statuses shows exactly these, in order, and is ready if and only
-- if every one of them is.
pub summary_of-reported :
    (p : Pod)
    → p.container_statuses ≢ []
    → ((summary_of p).containers ≡ p.container_statuses)
      × ((summary_of p).ready ≡ all (λ cs. cs.ready) p.container_statuses)
unfolding summary_of
summary_of-reported p reported =
    let shown = collect_containers [] (ltb 0 (length p.container_statuses)) p.container_statuses in
    let flag = collect_ready [] (ltb 0 (length p.container_statuses)) p.container_statuses in
    let (positive, counted) = length-reported p.container_statuses reported in
    rw (shown, flag, counted, positive) (refl, refl)

-- A pod that has reported no container statuses is not ready, and shows the containers of its spec
-- by name and image.
pub summary_of-unreported :
    (p : Pod)
    → p.container_statuses ≡ []
    → ((summary_of p).containers ≡ map unreported p.containers) × ((summary_of p).ready ≡ false)
unfolding summary_of
summary_of-unreported p silent = let spec = fall_back-map [] p.containers in rw silent (spec, refl)
