-- ===== src/Latency/Window.antt =====
-- The ring holds the latest durations (`recordRequestDuration` of
-- src/common/metrics/request-latency.tracker.ts).
use mathlib.Core.List.{append-nil, append_assoc, reverse, reverse-append, reverse-cons}
use native.Mathlib.Nat.{mod-eq_of_lt, mod_self}
use backend_emd.Prelude.{
  ℕ, zero, suc, ◌+◌, ◌%◌, ◌≤◌, ◌<◌, ◌≡◌, refl, sym, ap, ◌∙◌, ◌⊎◌, inl, inr, arith, ltb, true, false,
  List, [], ◌∷◌, ◌++◌, length, length-append, take, drop, set, if◌then◌else◌, Bool-cases,
}
use backend_emd.Latency.{
  Tracker, reset_tracker, record_request_duration, sort, insert, summary_of,
  get_request_latency_summary, window_size,
}
use backend_emd.Latency.Sort.{sort-append_comm, insert-sort-append}

-- The oldest duration first.
abbrev in_order : Tracker → List ℕ
in_order t = drop t.cursor t.durations ++ take t.cursor t.durations

module _ (window : ℕ) where
  -- The tracker after the durations, the last of them first.
  unfoldable pub recorded : List ℕ → Tracker
  unfolding record_request_duration
  recorded [] = reset_tracker
  recorded (ms ∷ earlier) = record_request_duration window ms (recorded earlier)

  record IsRing (t : Tracker) : Type 0 where
    within : length t.durations ≤ window
    in_range : t.cursor < window
    fills : length t.durations < window → t.cursor ≡ 0

  -- The bounded queue: the oldest goes when it is full.
  enqueue : ℕ → List ℕ → List ℕ
  enqueue ms [] = ms ∷ []
  enqueue ms (x ∷ q) = (if ltb (length (x ∷ q)) window then x ∷ q else q) ++ ms ∷ []

module _ {A : Type 0} where
  take-drop : (n : ℕ) (xs : List A) → take n xs ++ drop n xs ≡ xs
  take-drop zero xs = refl
  take-drop (suc n) [] = refl
  take-drop (suc n) (x ∷ xs) = ap (◌∷◌ x) (take-drop n xs)

  length-set : (xs : List A) (i : ℕ) (v : A) → length (set xs i v) ≡ length xs
  length-set [] i v = refl
  length-set (x ∷ xs) zero v = refl
  length-set (x ∷ xs) (suc i) v = ap suc (length-set xs i v)

  -- Writing at the cursor and moving it on: the oldest member goes, and the new one is the last.
  record Rotated (xs : List A) (c : ℕ) (v : A) : Type 0 where
    oldest : A
    rest : List A
    split : drop c xs ≡ oldest ∷ rest
    rest_after : drop (suc c) (set xs c v) ≡ rest
    new_after : take (suc c) (set xs c v) ≡ take c xs ++ v ∷ []

  rotated : (xs : List A) (c : ℕ) (v : A) → c < length xs → Rotated xs c v
  rotated [] c v h = absurd (omega arith)
  rotated (x ∷ xs) zero v h = record {
    oldest = x;
    rest = xs;
    split = refl;
    rest_after = refl;
    new_after = refl;
  }
  rotated (x ∷ xs) (suc c) v h =
      let r = rotated xs c v (omega arith) in
      record {
        oldest = r.oldest;
        rest = r.rest;
        split = r.split;
        rest_after = r.rest_after;
        new_after = ap (◌∷◌ x) r.new_after;
      }

  take_all : (n : ℕ) (xs : List A) → length xs ≤ n → take n xs ≡ xs
  take_all zero [] h = refl
  take_all zero (x ∷ xs) h = absurd (omega arith)
  take_all (suc n) [] h = refl
  take_all (suc n) (x ∷ xs) h = ap (◌∷◌ x) (take_all n xs (omega arith))

  drop_all : (n : ℕ) (xs : List A) → length xs ≤ n → drop n xs ≡ []
  drop_all zero [] h = refl
  drop_all zero (x ∷ xs) h = absurd (omega arith)
  drop_all (suc n) [] h = refl
  drop_all (suc n) (x ∷ xs) h = drop_all n xs (omega arith)

module _ (k : ℕ) (ms : ℕ) where
  enqueue-room : (q : List ℕ) → length q < suc k → enqueue (suc k) ms q ≡ q ++ ms ∷ []
  unfolding enqueue
  enqueue-room [] h = refl
  enqueue-room (x ∷ q) h = ground arith

  enqueue-full :
      (x : ℕ) (q : List ℕ) → suc k ≤ length (x ∷ q) → enqueue (suc k) ms (x ∷ q) ≡ q ++ ms ∷ []
  unfolding enqueue
  enqueue-full x q h = ground arith

  module _ (t : Tracker) (ring : IsRing (suc k) t) where
    open t use {durations, cursor}

    module _ (room : length durations < suc k) where
      record-room :
          record_request_duration (suc k) ms t ≡ record t { durations = durations ++ ms ∷ [] }
      unfolding record_request_duration
      record-room = ground arith

      in_order-room :
          in_order (record_request_duration (suc k) ms t) ≡ enqueue (suc k) ms (in_order t)
      in_order-room = rw record-room (
          rw (ring.fills room) (
            append-nil _
            ∙ sym (enqueue-room durations room)
            ∙ ap (enqueue (suc k) ms) (sym (append-nil durations))))

      room-IsRing : IsRing (suc k) (record_request_duration (suc k) ms t)
      room-IsRing = rw record-room (record {
        within = omega (arith, length-append {0} durations (ms ∷ []));
        in_range = ring.in_range;
        fills = λ _. ring.fills room;
      })

    module _ (full : suc k ≤ length durations) where
      after : List ℕ
      after = set durations cursor ms

      record-full :
          record_request_duration (suc k) ms t
          ≡ record { durations = set durations cursor ms; cursor = (cursor + 1) % suc k }
      unfolding record_request_duration
      record-full = ground arith

      r : Rotated durations cursor ms
      r = rotated durations cursor ms (omega (arith, ring.in_range))

      -- The cursor stands on the oldest member.
      enqueued : enqueue (suc k) ms (in_order t) ≡ (r.rest ++ take cursor durations) ++ ms ∷ []
      enqueued = rw r.split (
          enqueue-full r.oldest (r.rest ++ take cursor durations) (
            omega (
              arith,
              ap length (take-drop cursor durations),
              ap length r.split,
              length-append {0} (take cursor durations) (drop cursor durations),
              length-append {0} r.rest (take cursor durations),
            )))

      moved : drop (suc cursor) after ++ take (suc cursor) after ≡ enqueue (suc k) ms (in_order t)
      unfolding after
      moved = rw (r.rest_after, r.new_after, enqueued, append_assoc) refl

      in_order-full :
          in_order (record_request_duration (suc k) ms t) ≡ enqueue (suc k) ms (in_order t)
      unfolding after
      in_order-full = rw record-full (elim (Bool-cases (ltb (cursor + 1) (suc k))) [
        | inl inside ↦
            let lt : cursor + 1 < suc k = ground (arith, inside) in
            let e : (cursor + 1) % suc k ≡ suc cursor = omega (arith, mod-eq_of_lt lt) in
            ap (λ n. drop n after ++ take n after) e ∙ moved
        | inr wraps ↦
            let is : cursor + 1 ≡ suc k = ground (arith, ring.in_range) in
            let e : (cursor + 1) % suc k ≡ 0 = rw is (mod_self (suc k)) in
            let l : length after ≤ suc cursor =
              omega (arith, length-set durations cursor ms, ring.within) in
            ap (λ n. drop n after ++ take n after) e
            ∙ append-nil after
            ∙ sym (rw (drop_all (suc cursor) after l, take_all (suc cursor) after l) refl)
            ∙ moved
      ])

      full-IsRing : IsRing (suc k) (record_request_duration (suc k) ms t)
      full-IsRing = rw record-full (record {
        within = omega (arith, length-set durations cursor ms, ring.within);
        in_range = omega arith;
        fills = λ h. absurd (omega (arith, length-set durations cursor ms));
      })

length-reverse : (l : List ℕ) → length (reverse l) ≡ length l
length-reverse [] = refl
length-reverse (x ∷ l) =
    rw reverse-cons (omega (arith, length-append {0} (reverse l) (x ∷ []), length-reverse l))

sort-reverse : (l : List ℕ) → sort (reverse l) ≡ sort l
unfolding sort
sort-reverse [] = refl
sort-reverse (x ∷ l) = rw reverse-cons (
    insert-sort-append x (reverse l) []
    ∙ ap (insert x) (ap sort (append-nil (reverse l)) ∙ sort-reverse l))

take-suc : (k : ℕ) (l : List ℕ) → k < length l → (x : ℕ) × (take (suc k) l ≡ take k l ++ x ∷ [])
take-suc k [] h = absurd (omega arith)
take-suc zero (x ∷ l) h = (x, refl)
take-suc (suc k) (x ∷ l) h = let (y, e) = take-suc k l (omega arith) in (y, ap (◌∷◌ x) e)

length-take : (k : ℕ) (l : List ℕ) → k ≤ length l → length (take k l) ≡ k
length-take zero l h = refl
length-take (suc k) [] h = absurd (omega arith)
length-take (suc k) (x ∷ l) h = ap suc (length-take k l (omega arith))

module _ (k : ℕ) where
  recorded-IsRing : (h : List ℕ) → IsRing (suc k) (recorded (suc k) h)
  unfolding recorded
  recorded-IsRing [] = record { within = omega arith; in_range = omega arith; fills = λ _. refl }
  recorded-IsRing (ms ∷ h) =
      let t = recorded (suc k) h in
      elim (Bool-cases (ltb (length t.durations) (suc k))) [
        | inl room ↦ room-IsRing k ms t (recorded-IsRing h) (ground (arith, room))
        | inr full ↦ full-IsRing k ms t (recorded-IsRing h) (ground (arith, full))
      ]

  in_order-recorded : (h : List ℕ) → in_order (recorded (suc k) h) ≡ reverse (take (suc k) h)
  unfolding recorded
  in_order-recorded [] = refl
  in_order-recorded (ms ∷ h) =
      let t = recorded (suc k) h in
      let step : in_order (record_request_duration (suc k) ms t) ≡ enqueue (suc k) ms (in_order t) =
        elim (Bool-cases (ltb (length t.durations) (suc k))) [
          | inl room ↦ in_order-room k ms t (recorded-IsRing h) (ground (arith, room))
          | inr full ↦ in_order-full k ms t (recorded-IsRing h) (ground (arith, full))
        ] in
      step ∙ ap (enqueue (suc k) ms) (in_order-recorded h) ∙ latest (Bool-cases (ltb k (length h)))
    where
      latest :
          ((ltb k (length h) ≡ true) ⊎ (ltb k (length h) ≡ false))
          → enqueue (suc k) ms (reverse (take (suc k) h)) ≡ reverse (take (suc k) (ms ∷ h))
      latest (inl more) =
          let (x, e) = take-suc k h (ground (arith, more)) in
          ap (λ l. enqueue (suc k) ms (reverse l)) e
          ∙ ap (enqueue (suc k) ms) (reverse-append (take k h) (x ∷ []))
          ∙ enqueue-full k ms x (reverse (take k h))
              (omega (arith, length-reverse (take k h), length-take k h (ground (arith, more))))
          ∙ sym (reverse-cons ms (take k h))
      latest (inr few) =
          let short : length h ≤ k = ground (arith, few) in
          ap (λ l. enqueue (suc k) ms (reverse l)) (take_all (suc k) h (omega arith))
          ∙ enqueue-room k ms (reverse h) (omega (arith, length-reverse h))
          ∙ sym (reverse-cons ms h)
          ∙ ap (λ l. reverse (ms ∷ l)) (sym (take_all k h short))

  sort-recorded : (h : List ℕ) → sort (recorded (suc k) h).durations ≡ sort (take (suc k) h)
  sort-recorded h =
      let t = recorded (suc k) h in
      ap sort (sym (take-drop t.cursor t.durations))
      ∙ sort-append_comm (take t.cursor t.durations) (drop t.cursor t.durations)
      ∙ ap sort (in_order-recorded h)
      ∙ sort-reverse (take (suc k) h)

-- Whatever was recorded since the start, the summary is that of the latest 500 durations, or of all
-- of them if there are fewer: the ring forgets the oldest ones and no others.
pub summary-recorded :
    (history : List ℕ)
    → get_request_latency_summary (recorded window_size history)
      ≡ summary_of (sort (take window_size history))
unfolding get_request_latency_summary
summary-recorded history = ap summary_of (sort-recorded 499 history)

pub length-recorded :
    (history : List ℕ) → length (recorded window_size history).durations ≤ window_size
length-recorded history = (recorded-IsRing 499 history).within
