-- ===== src/Infrastructure/RateLimit/Window.antt =====
-- The fixed window of app/infrastructure/rate_limit.py: how many requests of a window pass.
use native.Mathlib.Nat.{div-mul-le_self}
use tenantforge.Prelude.{
  ◌-◌, min, All-delete, sym, Bool, true, Option, none, All-update, if◌then◌else◌, ℕ, ◌+◌, ◌*◌, ◌≤◌,
  ◌<◌, ◌≡◌, refl, subst, inl, inr, false, ◌&&◌, some, List, [], ◌∷◌, arith, scalar, update_where,
  delete_where, All, Text, text_eq, text_eq_refl, text_eq→eq, ◌==◌, Bool-cases,
}
use tenantforge.Infrastructure.RateLimit.{
  check, RateLimitResult, increment_window, window_of, Counter, counter_is, expired, hits, second,
}

-- The end of a window, in microseconds.
abbrev pub window_end : ℕ → ℕ → ℕ
window_end window_seconds k = (k + 1) * (window_seconds * second)

-- A counter lives as long as its window.
abbrev pub Outlives : ℕ → Counter → Type 0
Outlives window_seconds c = window_end window_seconds c.window ≤ c.expires_at

module _ (i : Text) (k window_seconds : ℕ) where
  -- Before the window ends, its counter is not evicted.
  scalar-evict :
      (now : ℕ) (cs : List Counter)
      → now < window_end window_seconds k
      → All (Outlives window_seconds) cs
      → scalar (counter_is i k) (delete_where (expired now) cs) ≡ scalar (counter_is i k) cs
  unfolding scalar delete_where
  scalar-evict now [] before a = refl
  scalar-evict now (c ∷ cs) before a = elim (Bool-cases (c.window == k)) [
    | inl e ↦
        let same : c.window ≡ k = ground arith in
        let lives : window_end window_seconds k ≤ c.expires_at =
          subst (λ x. window_end window_seconds x ≤ c.expires_at) same a.0 in
        ground (arith, scalar-evict now cs before a.1)
    | inr e ↦ ground (arith, scalar-evict now cs before a.1)
  ]

  scalar-count :
      (cs : List Counter) (c : Counter)
      → scalar (counter_is i k) cs ≡ some c
      → hits (
          scalar
            (counter_is i k)
            (update_where (counter_is i k) (λ r. record r { count = r.count + 1 }) cs))
        ≡ c.count + 1
  unfolding scalar update_where
  scalar-count [] c e = absurd (cc)
  scalar-count (x ∷ cs) c e = ground (arith, scalar-count cs c)

  scalar-count_other :
      (j : Text) (m : ℕ) (cs : List Counter)
      → (text_eq j i && (m == k)) ≡ false
      → scalar
          (counter_is i k)
          (update_where (counter_is j m) (λ r. record r { count = r.count + 1 }) cs)
        ≡ scalar (counter_is i k) cs
  unfolding scalar update_where
  scalar-count_other j m [] other = refl
  scalar-count_other j m (x ∷ cs) other = ground (
    arith,
    scalar-count_other j m cs other,
    text_eq→eq x.identifier i,
    text_eq→eq x.identifier j,
    text_eq_refl i,
  )

-- A new counter lives a second longer than its window.
new_outlives :
    (window_seconds now : ℕ)
    → window_end window_seconds (window_of window_seconds now) ≤ now + (window_seconds + 1) * second
new_outlives window_seconds now =
    let begun = div-mul-le_self now (window_seconds * second) in ground arith

abbrev mine : Text → ℕ → Text → ℕ → Bool
mine i k j m = text_eq j i && (m == k)

module _ (i : Text) (k window_seconds : ℕ) where
  -- What one request does to the counter of the window.
  record Counted (j : Text) (m now : ℕ) (cs : List Counter) (n : ℕ) (cs' : List Counter)
      : Type 0 where
    outlive : All (Outlives window_seconds) cs'
    hits_are :
        hits (scalar (counter_is i k) cs')
        ≡ (if mine i k j m then 1 else 0) + hits (scalar (counter_is i k) cs)
    count_is : mine i k j m ≡ true → n ≡ hits (scalar (counter_is i k) cs) + 1

  same_key :
      (j : Text) (m : ℕ) (live : List Counter) (found : Option Counter)
      → mine i k j m ≡ true
      → scalar (counter_is j m) live ≡ found
      → scalar (counter_is i k) live ≡ found
  same_key j m live found h e =
      let key : ◌≡◌ {A = Text × ℕ} (j, m) (i, k) = ground (arith, text_eq→eq j i) in
      subst (λ x. scalar (counter_is x.0 x.1) live ≡ found) key e

  counted_again :
      (j : Text) (m : ℕ) (c : Counter) (live : List Counter)
      → mine i k j m ≡ true
      → scalar (counter_is i k) live ≡ some c
      → hits (
          scalar
            (counter_is i k)
            (update_where (counter_is j m) (λ r. record r { count = r.count + 1 }) live))
        ≡ (if mine i k j m then 1 else 0) + hits (scalar (counter_is i k) live)
  counted_again j m c live same e =
      let key : j ≡ i = ground (arith, text_eq→eq j i) in
      let window : m ≡ k = ground arith in
      let again = scalar-count i k window_seconds live c e in
      rw (same, e, key, window, again) (omega arith)

  Counted-live :
      (j : Text) (m now : ℕ) (live : List Counter)
      → m ≡ window_of window_seconds now
      → All (Outlives window_seconds) live
      → (found : Option Counter) → scalar (counter_is j m) live ≡ found
      → let run : ℕ × List Counter = elim found [
        | none ↦ (
          1,
          record {
            identifier = j;
            window = m;
            count = 1;
            expires_at = now + (window_seconds + 1) * second;
          }
              ∷ live,
        )
        | some c ↦ (
          c.count + 1,
          update_where (counter_is j m) (λ r. record r { count = r.count + 1 }) live,
        )
      ] in
        Counted j m now live run.0 run.1
  unfolding scalar
  Counted-live j m now live at_m a none e = record {
    outlive = (rw at_m (new_outlives window_seconds now), a);
    hits_are = elim (Bool-cases (mine i k j m)) [
      | inl same ↦ ground (arith, same_key j m live none same e)
      | inr other ↦ ground arith
    ];
    count_is = λ same. ground (arith, same_key j m live none same e);
  }
  Counted-live j m now live at_m a (some c) e = record {
    outlive = All-update (Outlives window_seconds) _ _ live (λ x h. h) a;
    hits_are = elim (Bool-cases (mine i k j m)) [
      | inl same ↦ counted_again j m c live same (same_key j m live (some c) same e)
      | inr other ↦ rw (other, scalar-count_other i k window_seconds j m live other) (omega arith)
    ];
    count_is = λ same. ground (arith, same_key j m live (some c) same e);
  }

  incremented :
      (j : Text) (now : ℕ) (cs : List Counter)
      → now < window_end window_seconds k
      → All (Outlives window_seconds) cs
      → let m = window_of window_seconds now in
        let run = increment_window j m (window_seconds + 1) now cs in Counted j m now cs run.0 run.1
  unfolding increment_window
  incremented j now cs before a =
      let m = window_of window_seconds now in
      let live = delete_where (expired now) cs in
      let c =
        Counted-live j m now live refl (All-delete (Outlives window_seconds) (expired now) cs a)
          (scalar (counter_is j m) live) refl in
      let kept = scalar-evict i k window_seconds now cs before a in
      record {
        outlive = c.outlive;
        hits_are = rw (sym kept) c.hits_are;
        count_is = λ same. rw (sym kept) (c.count_is same);
      }

pub record Request : Type 0 where
  pub identifier : Text
  pub time : ℕ

abbrev pub is_allowed : Option RateLimitResult → Bool
is_allowed none = false
is_allowed (some r) = r.allowed

module _ (i : Text) (k limit window_seconds : ℕ) where
  abbrev pub in_window : Request → Bool
  in_window r = text_eq r.identifier i && (window_of window_seconds r.time == k)

  -- How many requests of the identifier the window sees, and how many of them are allowed.
  unfoldable pub asked : List Request → ℕ
  asked [] = 0
  asked (r ∷ rs) = (if in_window r then 1 else 0) + asked rs

  unfoldable pub passing : List Request → List Counter → ℕ
  passing [] cs = 0
  passing (r ∷ rs) cs =
      let (result, cs') = check r.identifier limit window_seconds r.time cs in
      (if in_window r && is_allowed result then 1 else 0) + passing rs cs'

  passing_from :
      (rs : List Request) (cs : List Counter)
      → 1 ≤ limit
      → 1 ≤ window_seconds
      → All (λ r. r.time < window_end window_seconds k) rs
      → All (Outlives window_seconds) cs
      → passing rs cs ≡ min (limit - hits (scalar (counter_is i k) cs)) (asked rs)
  unfolding passing asked check
  passing_from [] cs hl hw before a = omega arith
  passing_from (r ∷ rs) cs hl hw before a =
      let c = incremented i k window_seconds r.identifier r.time cs before.0 a in
      let run =
        increment_window r.identifier (window_of window_seconds r.time) (window_seconds + 1) r.time
          cs in
      let rest = passing_from rs run.1 hl hw before.1 c.outlive in
      elim (Bool-cases (in_window r)) [
        | inl same ↦ ground (arith, rest, c.hits_are, c.count_is same)
        | inr other ↦ ground (arith, rest, c.hits_are)
      ]

  -- Start with no counter and serve requests of any identifiers, in any order, all of them before
  -- the end of window `k`. Of the requests of one identifier in that window, the number that
  -- are allowed is the smaller of the limit and of how many came.
  pub passing_is_limited :
      (rs : List Request)
      → 1 ≤ limit
      → 1 ≤ window_seconds
      → All (λ r. r.time < window_end window_seconds k) rs
      → passing rs [] ≡ min limit (asked rs)
  unfolding scalar
  passing_is_limited rs hl hw before = ground (arith, passing_from rs [] hl hw before tt)
