-- ===== src/Server/MatchScheduler/Ownership.antt =====
-- Every match has exactly one worker, and a new match goes to the worker that has the least to do.
use kung_fu_chess.Prelude.{
  ℕ, zero, suc, ◌<◌, ◌≡◌, refl, Option, none, some, List, [], ◌∷◌, length, get_elem?, replicate,
  length-replicate, arith,
}
use kung_fu_chess.Server.MatchScheduler.Choosing.{NoLess, Picks, choose-Picks}
use kung_fu_chess.Server.MatchScheduler.Defs.{
  Worker, MatchScheduler, idle_worker, workers_for, new_scheduler, take_on, let_go, nudge, place_on,
  add, take_from, remove, nudge_owner, wake,
}
use kung_fu_chess.Server.MatchScheduler.Counting.{get_elem?-lt, length-change_worker}
use kung_fu_chess.Server.MatchScheduler.Owned.{
  IsOwned, place_on-IsOwned, take_from-IsOwned, nudge_owner-IsOwned,
}

-- A scheduler that has at least one worker, each of which has just the matches that it owns.
abbrev pub IsManned : MatchScheduler → Type 0
IsManned s = (0 < length s.workers) × IsOwned s

pub record Adds (key : ℕ) (s t : MatchScheduler) : Type 0 where
  pub place : ℕ
  pub taker : Worker
  pub standing : get_elem? s.workers place ≡ some taker
  pub least : NoLess taker.load s.workers
  pub owned : t.owners key ≡ some place
  pub manned : IsManned t

add_to :
    (key : ℕ) (s : MatchScheduler)
    → s.owners key ≡ none
    → IsOwned s
    → Picks s.workers
    → Adds key s (add key s)
unfolding add place_on
add_to key s free h p =
    rw (p.run, add)
      (record {
        place = p.pick;
        taker = p.picked;
        standing = p.found;
        least = p.no_less;
        owned = ground arith;
        manned = (
          rw (length-change_worker p.pick (take_on key) s.workers)
              (omega (arith, get_elem?-lt s.workers p.pick p.picked p.found)),
          place_on-IsOwned key p.pick p.picked.load p.picked s p.found free h,
        );
      })

nonempty-Picks : (ws : List Worker) → 0 < length ws → Picks ws
nonempty-Picks [] h = absurd (omega arith)
nonempty-Picks (w ∷ ws) h = choose-Picks w ws

-- A match that has no worker yet is given to one worker, with whom no other has fewer matches, and
-- from then on every worker's list has the matches that it owns, once each, and no others.
pub add-Adds :
    (key : ℕ) (s : MatchScheduler) → IsManned s → s.owners key ≡ none → Adds key s (add key s)
add-Adds key s (some_worker, h) free = add_to key s free h (nonempty-Picks s.workers some_worker)

length-take_from :
    (key : ℕ) (o : Option ℕ) (s : MatchScheduler)
    → length (take_from o key s).workers ≡ length s.workers
unfolding take_from
length-take_from key none s = refl
length-take_from key (some place) s = length-change_worker place (let_go key) s.workers

length-nudge_owner :
    (o : Option ℕ) (s : MatchScheduler) → length (nudge_owner o s).workers ≡ length s.workers
unfolding nudge_owner
length-nudge_owner none s = refl
length-nudge_owner (some place) s = length-change_worker place nudge s.workers

owners-take_from :
    (key : ℕ) (o : Option ℕ) (s : MatchScheduler)
    → s.owners key ≡ o
    → (take_from o key s).owners key ≡ none
unfolding take_from
owners-take_from key none s e = e
owners-take_from key (some place) s e = ground arith

-- A match that is removed has no worker any more, on no list.
pub remove-IsManned :
    (key : ℕ) (s : MatchScheduler)
    → IsManned s
    → IsManned (remove key s) × ((remove key s).owners key ≡ none)
unfolding remove
remove-IsManned key s (n, h) = (
  (rw (length-take_from key (s.owners key) s) n, take_from-IsOwned key (s.owners key) s refl h),
  owners-take_from key (s.owners key) s refl,
)

pub wake-IsManned : (key : ℕ) (s : MatchScheduler) → IsManned s → IsManned (wake key s)
unfolding wake
wake-IsManned key s (n, h) =
    (rw (length-nudge_owner (s.owners key) s) n, nudge_owner-IsOwned (s.owners key) s h)

get_elem?-replicate {ℓ} :
    {A : Type ℓ} (n i : ℕ) (a b : A) → get_elem? (replicate n a) i ≡ some b → b ≡ a
get_elem?-replicate zero i a b h = cc
get_elem?-replicate (suc n) zero a b h = cc
get_elem?-replicate (suc n) (suc i) a b h = get_elem?-replicate n i a b h

pub new_scheduler-IsManned : (count hardware : ℕ) → IsManned (new_scheduler count hardware)
unfolding new_scheduler workers_for
new_scheduler-IsManned count hardware = (
  rw (length-replicate (workers_for count hardware) idle_worker) (ground arith),
  record {
    each = λ i w e.
        rw (get_elem?-replicate (workers_for count hardware) i idle_worker w e)
          (record { loaded = refl; once = λ k. refl });
    known = λ k o e. cc;
  },
)
