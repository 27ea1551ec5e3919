-- ===== src/Interrupt/Removal.antt =====
-- The loops of `CommitInterruptInjection` in src/interrupt/interrupt_model.cpp: the event is found,
-- and the entries behind it move down.
use mathlib.Core.List.{Memᴰ}
use knhv.Prelude.{
  ℕ, zero, suc, ◌-◌, ◌≤◌, ◌<◌, ◌≡◌, ◌≢◌, refl, ap, true, false, some, none, List, [], ◌∷◌, arith,
}
use knhv.Prelude.Tests.{if◌then◌else◌}
use knhv.Prelude.Lists.{length, set, take, get_or}
use knhv.Interrupt.Defs.{
  InterruptEvent, InterruptDecision, zero_event, is_same_event, is_zero_event, has_sequence,
  all_zero, are_pending_valid,
}
use knhv.Interrupt.Ops.{find_event, shift_down}

-- The queue without the first event that the decision names.
unfoldable pub erase_event : InterruptDecision → List InterruptEvent → List InterruptEvent
erase_event d [] = []
erase_event d (e ∷ es) = if is_same_event e d then es else e ∷ erase_event d es

-- The array with a cleared entry put in at an index.
clear_at : ℕ → List InterruptEvent → List InterruptEvent
clear_at zero p = zero_event ∷ p
clear_at (suc n) [] = []
clear_at (suc n) (x ∷ p) = x ∷ clear_at n p

-- The array after the moves of the inner loop and the write of the last entry.
unfoldable pub closed : ℕ → ℕ → List InterruptEvent → List InterruptEvent
closed n i p = set (shift_down (n - i) i p) n zero_event

shift_down-cons :
    (k to : ℕ) (x : InterruptEvent) (p : List InterruptEvent)
    → shift_down k (suc to) (x ∷ p) ≡ x ∷ shift_down k to p
unfolding shift_down
shift_down-cons zero to x p = refl
shift_down-cons (suc k) to x p =
    shift_down-cons k (suc to) x (set p to (get_or p (suc to) zero_event))

closed-cons :
    (n i : ℕ) (x : InterruptEvent) (p : List InterruptEvent)
    → closed (suc n) (suc i) (x ∷ p) ≡ x ∷ closed n i p
unfolding closed
closed-cons n i x p =
    let e : suc n - suc i ≡ n - i = omega arith in rw (e, shift_down-cons (n - i) i x p)

shift_front :
    (n : ℕ) (x : InterruptEvent) (p : List InterruptEvent)
    → n ≤ length p
    → set (shift_down n 0 (x ∷ p)) n zero_event ≡ clear_at n p
unfolding shift_down clear_at
shift_front zero x p h = refl
shift_front (suc n) x [] h = absurd (omega arith)
shift_front (suc n) x (y ∷ p) h =
    rw (shift_down-cons n 0 y (y ∷ p)) (ap (◌∷◌ y) (shift_front n y p (omega arith)))

closed_front :
    (n : ℕ) (x : InterruptEvent) (p : List InterruptEvent)
    → n ≤ length p
    → closed n 0 (x ∷ p) ≡ clear_at n p
unfolding closed
closed_front n x p h = let e : n - 0 ≡ n = omega arith in rw e (shift_front n x p h)

-- Fewer earlier entries make the loop no stricter.
fewer_prior :
    (g : ℕ) (prior prior' : List InterruptEvent) (n : ℕ) (es : List InterruptEvent)
    → ((m : ℕ) → has_sequence m prior ≡ false → has_sequence m prior' ≡ false)
    → are_pending_valid g prior n es ≡ true
    → are_pending_valid g prior' n es ≡ true
unfolding are_pending_valid has_sequence
fewer_prior g prior prior' zero es sub v = v
fewer_prior g prior prior' (suc n) [] sub v = refl
fewer_prior g prior prior' (suc n) (e ∷ es) sub v = ground (
  arith,
  sub e.sequence,
  fewer_prior g (e ∷ prior) (e ∷ prior') n es (λ m. ground (arith, sub m)),
)

clear_at_valid :
    (g : ℕ) (prior : List InterruptEvent) (n : ℕ) (es : List InterruptEvent)
    → are_pending_valid g prior n es ≡ true
    → are_pending_valid g prior n (clear_at n es) ≡ true
unfolding are_pending_valid clear_at all_zero is_zero_event
clear_at_valid g prior zero es v = v
clear_at_valid g prior (suc n) [] v = refl
clear_at_valid g prior (suc n) (e ∷ es) v = ground (arith, clear_at_valid g (e ∷ prior) n es)

pub closed_valid :
    (g : ℕ) (prior : List InterruptEvent) (n i : ℕ) (es : List InterruptEvent)
    → i ≤ n
    → n < length es
    → are_pending_valid g prior (suc n) es ≡ true
    → are_pending_valid g prior n (closed n i es) ≡ true
unfolding are_pending_valid has_sequence
closed_valid g prior n i [] h room v = absurd (omega arith)
closed_valid g prior n zero (x ∷ es) h room v = rw (closed_front n x es (omega arith)) (
    clear_at_valid g prior n es
      (fewer_prior g (x ∷ prior) prior n es (λ m. ground arith) (ground arith)))
closed_valid g prior zero (suc i) (x ∷ es) h room v = absurd (omega arith)
closed_valid g prior (suc n) (suc i) (x ∷ es) h room v =
    rw (closed-cons n i x es) (ground (arith, closed_valid g (x ∷ prior) n i es))

take-clear_at :
    (n : ℕ) (es : List InterruptEvent) → n ≤ length es → take n (clear_at n es) ≡ take n es
unfolding clear_at
take-clear_at zero es h = refl
take-clear_at (suc n) [] h = refl
take-clear_at (suc n) (e ∷ es) h = ap (◌∷◌ e) (take-clear_at n es (omega arith))

-- What the moves leave in use is the queue without the entry that was found.
pub closed_live :
    (d : InterruptDecision) (n i : ℕ) (es : List InterruptEvent)
    → n < length es
    → find_event d (take (suc n) es) ≡ some i
    → take n (closed n i es) ≡ erase_event d (take (suc n) es)
unfolding find_event erase_event
closed_live d n i [] room f = absurd (omega arith)
closed_live d n zero (x ∷ es) room f =
    let same : is_same_event x d ≡ true = ground arith in
    rw (same, closed_front n x es (omega arith)) (take-clear_at n es (omega arith))
closed_live d zero (suc i) (x ∷ es) room f = ground arith
closed_live d (suc n) (suc i) (x ∷ es) room f =
    let other : is_same_event x d ≡ false = ground arith in
    let further : find_event d (take (suc n) es) ≡ some i = ground arith in
    rw (other, closed-cons n i x es) (ap (◌∷◌ x) (closed_live d n i es (omega arith) further))

pub found_below :
    (d : InterruptDecision) (n i : ℕ) (es : List InterruptEvent)
    → find_event d (take n es) ≡ some i
    → i < n
unfolding find_event
found_below d zero i es f = ground arith
found_below d (suc n) i [] f = ground arith
found_below d (suc n) zero (e ∷ es) f = omega arith
found_below d (suc n) (suc i) (e ∷ es) f = ground (arith, found_below d n i es)

pub found_mem :
    (d : InterruptDecision) (es : List InterruptEvent) (r : InterruptEvent)
    → Memᴰ r es
    → is_same_event r d ≡ true
    → find_event d es ≢ none
unfolding find_event
found_mem d [] r m same = elim m [ ]
found_mem d (e ∷ es) r (Memᴰ.head q) same = ground (arith, ap (λ t. is_same_event t d) q)
found_mem d (e ∷ es) r (Memᴰ.tail m) same = ground (arith, found_mem d es r m same)
