-- ===== src/Server/MatchScheduler/Choosing.antt =====
-- The worker that `add` chooses: none has fewer matches.
use kung_fu_chess.Prelude.{
  ℕ, zero, suc, ◌+◌, ◌≤◌, ◌≡◌, refl, sym, ◌∙◌, ◌⊎◌, inl, inr, Bool-cases, ltb, Option, none, some,
  List, [], ◌∷◌, get_elem?, arith,
}
use kung_fu_chess.Server.MatchScheduler.Defs.{Worker, choose}

abbrev pub NoLess : ℕ → List Worker → Type 0
NoLess n ws = (i : ℕ) (w : Worker) → get_elem? ws i ≡ some w → n ≤ w.load

NoLess-cons : (n : ℕ) (w : Worker) (ws : List Worker) → n ≤ w.load → NoLess n ws → NoLess n (w ∷ ws)
NoLess-cons n w ws h rest zero v e = ground arith
NoLess-cons n w ws h rest (suc i) v e = rest i v e

NoLess-le : (m n : ℕ) (ws : List Worker) → m ≤ n → NoLess n ws → NoLess m ws
NoLess-le m n ws h rest i v e = omega (arith, rest i v e)

-- What the loop ends with: the best it began with, or a worker of the list, and no worker has less.
record Chooses (chosen fewest place : ℕ) (ws : List Worker) : Type 0 where
  last : ℕ
  least : ℕ
  run : choose (some (chosen, fewest)) place ws ≡ some (last, least)
  below : least ≤ fewest
  no_less : NoLess least ws
  from :
      ((last ≡ chosen) × (least ≡ fewest))
      ⊎ ((j : ℕ) × (v : Worker) × (last ≡ place + j) × (get_elem? ws j ≡ some v) × (v.load ≡ least))

choose-Chooses : (chosen fewest place : ℕ) (ws : List Worker) → Chooses chosen fewest place ws
unfolding choose
choose-Chooses chosen fewest place [] = record {
  last = chosen;
  least = fewest;
  run = refl;
  below = omega arith;
  no_less = λ i w e. cc;
  from = inl (refl, refl);
}
choose-Chooses chosen fewest place (w ∷ ws) = elim (Bool-cases (ltb w.load fewest)) [
  | inl less ↦
      let r = choose-Chooses place w.load (suc place) ws in
      record {
        last = r.last;
        least = r.least;
        run = rw (less, choose) r.run;
        below = ground (arith, r.below);
        no_less = NoLess-cons r.least w ws r.below r.no_less;
        from = elim r.from [
          | inl (p, q) ↦ inr (0, w, omega (arith, p), refl, sym q)
          | inr (j, v, p, q, t) ↦ inr (suc j, v, omega (arith, p), q, t)
        ];
      }
  | inr more ↦
      let r = choose-Chooses chosen fewest (suc place) ws in
      record {
        last = r.last;
        least = r.least;
        run = rw (more, choose) r.run;
        below = r.below;
        no_less = NoLess-cons r.least w ws (ground (arith, r.below)) r.no_less;
        from = elim r.from [
          | inl p ↦ inl p
          | inr (j, v, p, q, t) ↦ inr (suc j, v, omega (arith, p), q, t)
        ];
      }
]

some_pair : {a b c d : ℕ} → a ≡ c → b ≡ d → ◌≡◌ {A = Option (ℕ × ℕ)} (some (a, b)) (some (c, d))
some_pair p q = cc

-- The worker that `add` picks.
pub record Picks (ws : List Worker) : Type 0 where
  pub pick : ℕ
  pub picked : Worker
  pub run : choose none 0 ws ≡ some (pick, picked.load)
  pub found : get_elem? ws pick ≡ some picked
  pub no_less : NoLess picked.load ws

pub choose-Picks : (w : Worker) (ws : List Worker) → Picks (w ∷ ws)
unfolding choose
choose-Picks w ws =
    let r = choose-Chooses 0 w.load 1 ws in
    elim r.from [
      | inl (p, q) ↦ record {
        pick = 0;
        picked = w;
        run = r.run ∙ some_pair p q;
        found = refl;
        no_less =
            NoLess-cons w.load w ws (omega arith)
              (NoLess-le w.load r.least ws (omega (arith, q)) r.no_less);
      }
      | inr (j, v, p, q, t) ↦ record {
        pick = suc j;
        picked = v;
        run = r.run ∙ some_pair (omega (arith, p)) (sym t);
        found = q;
        no_less =
            NoLess-cons v.load w ws (omega (arith, t, r.below))
              (NoLess-le v.load r.least ws (omega (arith, t)) r.no_less);
      }
    ]
