-- ===== src/Server/MatchScheduler/Owned.antt =====
-- What a scheduler (server/src/kfc/server/match_scheduler.cpp) and its workers own, through every call.
use kung_fu_chess.Prelude.{
  ℕ, ◌<◌, ◌≡◌, refl, sym, ap, subst, ◌∙◌, ◌⊎◌, inl, inr, ◌==◌, if◌then◌else◌, Bool-cases, Option,
  none, some, [], ◌∷◌, length, length-append, get_elem?, ==_iff, arith,
}
use kung_fu_chess.Server.MatchScheduler.Defs.{
  Worker, MatchScheduler, take_on, holds, let_go, nudge, own, place_on, take_from, nudge_owner,
}
use kung_fu_chess.Server.MatchScheduler.Counting.{
  times, times-append, times-erase_first, holds-times, not_holds-times, length-erase_first,
  get_elem?-lt, length-change_worker, changed,
}

-- One if the worker at the place is the owner.
abbrev pub share : Option ℕ → ℕ → ℕ
share none place = 0
share (some owner) place = if owner == place then 1 else 0

-- A worker's load is the length of its list, and its list has the matches that it owns, once each.
pub record IsOwner (owners : ℕ → Option ℕ) (place : ℕ) (w : Worker) : Type 0 where
  pub loaded : w.load ≡ length w.matches
  pub once : (key : ℕ) → times key w.matches ≡ share (owners key) place

pub record IsOwned (s : MatchScheduler) : Type 0 where
  pub each :
      (place : ℕ) (w : Worker) → get_elem? s.workers place ≡ some w → IsOwner s.owners place w
  pub known : (key owner : ℕ) → s.owners key ≡ some owner → owner < length s.workers

own-IsOwner_other :
    (owners : ℕ → Option ℕ) (key place : ℕ) (o : Option ℕ) (w : Worker)
    → share o place ≡ share (owners key) place
    → IsOwner owners place w
    → IsOwner (own key o owners) place w
own-IsOwner_other owners key place o w same h = record {
  loaded = h.loaded;
  once = λ k. ground (arith, h.once k, ==_iff k key);
}

take_on-IsOwner :
    (owners : ℕ → Option ℕ) (key place : ℕ) (w : Worker)
    → owners key ≡ none
    → IsOwner owners place w
    → IsOwner (own key (some place) owners) place (take_on key w)
take_on-IsOwner owners key place w free h = record {
  loaded = omega (arith, h.loaded, length-append w.matches (key ∷ []));
  once = λ k. ground (arith, h.once k, times-append k w.matches (key ∷ []));
}

let_go-IsOwner :
    (owners : ℕ → Option ℕ) (key place : ℕ) (w : Worker)
    → owners key ≡ some place
    → IsOwner owners place w
    → IsOwner (own key none owners) place (let_go key w)
unfolding let_go
let_go-IsOwner owners key place w mine h = elim (Bool-cases (holds key w.matches)) [
  | inl has ↦
      rw (has, let_go)
        (record {
          loaded =
              omega
                (arith, h.loaded, length-erase_first key w.matches (holds-times key w.matches has));
          once = λ k. ground (arith, h.once k, times-erase_first k key w.matches);
        })
  | inr lacks ↦ ground (arith, h.once key, not_holds-times key w.matches lacks)
]

-- Elsewhere nothing changes.
own-IsOwner :
    (owners : ℕ → Option ℕ) (key place i : ℕ) (o : Option ℕ) (w : Worker)
    → ((place ≡ i) → ⊥)
    → ((owners key ≡ none) × (o ≡ some place)) ⊎ ((owners key ≡ some place) × (o ≡ none))
    → IsOwner owners i w
    → IsOwner (own key o owners) i w
own-IsOwner owners key place i o w other (inl (p, q)) h =
    own-IsOwner_other owners key i o w (ground (arith, other)) h
own-IsOwner owners key place i o w other (inr (p, q)) h =
    own-IsOwner_other owners key i o w (ground (arith, other)) h

pub place_on-IsOwned :
    (key place load : ℕ) (w : Worker) (s : MatchScheduler)
    → get_elem? s.workers place ≡ some w
    → s.owners key ≡ none
    → IsOwned s
    → IsOwned (place_on (some (place, load)) key s)
unfolding place_on
place_on-IsOwned key place load w s here free h = record {
  each = λ i u e.
      let (v, old, new) = changed place i (take_on key) s.workers u e in
      elim (Bool-cases (i == place)) [
        | inl same ↦
            rw (new, same)
              (subst (λ p. IsOwner (own key (some p) s.owners) i (take_on key v))
                ((==_iff i place).0 same) (take_on-IsOwner s.owners key i v free (h.each i v old)))
        | inr other ↦
            rw (new, other)
              (own-IsOwner s.owners key place i (some place) v (λ q. ground arith)
                (inl (free, refl)) (h.each i v old))
      ];
  known = λ k o e.
      rw (length-change_worker place (take_on key) s.workers)
        (ground (arith, h.known k o, get_elem?-lt s.workers place w here));
}

pub take_from-IsOwned :
    (key : ℕ) (o : Option ℕ) (s : MatchScheduler)
    → s.owners key ≡ o
    → IsOwned s
    → IsOwned (take_from o key s)
unfolding take_from
take_from-IsOwned key none s mine h = h
take_from-IsOwned key (some place) s mine h = record {
  each = λ i u e.
      let (v, old, new) = changed place i (let_go key) s.workers u e in
      elim (Bool-cases (i == place)) [
        | inl same ↦
            rw (new, same)
              (let_go-IsOwner s.owners key i v (mine ∙ ap some (sym ((==_iff i place).0 same)))
                (h.each i v old))
        | inr other ↦
            rw (new, other)
              (own-IsOwner s.owners key place i none v (λ q. ground arith) (inr (mine, refl))
                (h.each i v old))
      ];
  known =
      λ k o e. rw (length-change_worker place (let_go key) s.workers) (ground (arith, h.known k o));
}

pub nudge_owner-IsOwned :
    (o : Option ℕ) (s : MatchScheduler) → IsOwned s → IsOwned (nudge_owner o s)
unfolding nudge_owner
nudge_owner-IsOwned none s h = h
nudge_owner-IsOwned (some place) s h = record {
  each = λ i u e.
      let (v, old, new) = changed place i nudge s.workers u e in
      elim (Bool-cases (i == place)) [
        | inl same ↦
            rw (new, same)
              (record { loaded = (h.each i v old).loaded; once = (h.each i v old).once })
        | inr other ↦ rw (new, other) (h.each i v old)
      ];
  known = λ k o e. rw (length-change_worker place nudge s.workers) (h.known k o e);
}
