-- ===== src/Infrastructure/Queue/Recovery.antt =====
-- `recover_in_flight` of app/infrastructure/queue.py: no claimed job is lost by a restart.
use tenantforge.Prelude.{
  ◌+◌, ◌∙◌, ℕ, zero, suc, ap, none, arith, ◌≡◌, refl, some, List, [], ◌∷◌, ◌++◌, length, Text,
}
use tenantforge.Infrastructure.Queue.{DeadLetter, Redis, rpop, recover_in_flight}

rpop-cons :
    (x z : Text) (zs : List Text) (y : Text) (ys : List Text)
    → rpop (z ∷ zs) ≡ some (y, ys)
    → rpop (x ∷ z ∷ zs) ≡ some (y, x ∷ ys)
unfolding rpop
rpop-cons x z zs y ys h = ground arith

pub rpop-one : (x : Text) → rpop (x ∷ []) ≡ some (x, [])
unfolding rpop
rpop-one x = refl

-- The right end is the last element.
pub record Popped (xs : List Text) (n : ℕ) : Type 0 where
  pub last : Text
  pub rest : List Text
  pub popped : rpop xs ≡ some (last, rest)
  pub whole : xs ≡ rest ++ (last ∷ [])
  pub long : n ≡ length rest

rpop-ok : (x : Text) (xs : List Text) → Popped (x ∷ xs) (length xs)
rpop-ok x [] = record { last = x; rest = []; popped = rpop-one x; whole = refl; long = refl }
rpop-ok x (z ∷ zs) =
    let p = rpop-ok z zs in
    record {
      last = p.last;
      rest = x ∷ p.rest;
      popped = rpop-cons x z zs p.last p.rest p.popped;
      whole = ap (λ t. x ∷ t) p.whole;
      long = ap suc p.long;
    }

rpop-nil : rpop [] ≡ none
unfolding rpop
rpop-nil = refl

append_one : (xs : List Text) (y : Text) (ys : List Text) → (xs ++ (y ∷ [])) ++ ys ≡ xs ++ (y ∷ ys)
append_one [] y ys = refl
append_one (x ∷ xs) y ys = ap (λ t. x ∷ t) (append_one xs y ys)

-- One round.
moved :
    (n : ℕ) (r : Redis) (y : Text) (ys : List Text)
    → rpop r.processing ≡ some (y, ys)
    → recover_in_flight (suc n) r ≡ (
        let after = recover_in_flight n (record r { processing = ys; queue = y ∷ r.queue }) in
        (after.0 + 1, after.1))
unfolding recover_in_flight
moved n r y ys e = simp (recover_in_flight, e) refl

recovered :
    (n : ℕ) (queue processing : List Text) (dead : List DeadLetter)
    → n ≡ length processing
    → recover_in_flight n (record { queue = queue; processing = processing; dead_letters = dead })
      ≡ (n, record { queue = processing ++ queue; processing = []; dead_letters = dead })
unfolding recover_in_flight
recovered zero queue [] dead h = refl
recovered zero queue (x ∷ xs) dead h = absurd (ground arith)
recovered (suc n) queue [] dead h = absurd (ground arith)
recovered (suc n) queue (x ∷ xs) dead h =
    let p = rpop-ok x xs in
    let rest = recovered n (p.last ∷ queue) p.rest dead (omega (arith, p.long)) in
    let whole : x ∷ (xs ++ queue) ≡ p.rest ++ (p.last ∷ queue) =
      ap (λ t. t ++ queue) p.whole ∙ append_one p.rest p.last queue in
    let step =
      moved n (record { queue = queue; processing = x ∷ xs; dead_letters = dead }) p.last p.rest
        p.popped in
    rw (step, rest) (ground (arith, whole))

-- With one round for each claimed entry, `recover_in_flight` moves every entry of the processing
-- list back into the queue, before what is there and in the same order, and counts them; the dead
-- letters are not touched.
pub recover_in_flight_all :
    (r : Redis)
    → recover_in_flight (length r.processing) r ≡ (
      length r.processing,
      record { queue = r.processing ++ r.queue; processing = []; dead_letters = r.dead_letters },
    )
recover_in_flight_all r = recovered (length r.processing) r.queue r.processing r.dead_letters refl
