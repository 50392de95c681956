-- ===== src/Rules/Reloader/Frames.antt =====
-- The framing of the files that hashDir of rules/reloader.go hashes, and a reader of it.
use fruitfly.Base.{
  ◌==◌, if◌then◌else◌, length, take, drop, All, length-append, All-append, Str, ℕ, zero, suc, ◌+◌,
  ◌-◌, ◌*◌, ◌/◌, ◌%◌, ◌≤◌, ◌<◌, ◌≡◌, refl, sym, ap, ◌∙◌, false, Option, none, some, List, [], ◌∷◌,
  ◌++◌, arith,
}
use mathlib.Core.List.{append_assoc}
use mathlib.Core.Logic.{dite}
use mathlib.Core.WellFounded.{Acc}
use native.Mathlib.Decide.{dec_lt}
use fruitfly.Rules.Reloader.{tenth-lt, decimal_acc, all_below, decimal, frame, frames}

abbrev pub IsPlain : Str → Type 0
IsPlain s = All (λ b. (b == 0) ≡ false) s

-- Up to the first NUL, and what follows it.
split_nul : Str → Option (Str × Str)
split_nul [] = none
split_nul (c ∷ cs) =
    if c == 0
    then some ([], cs)
    else elim (split_nul cs) [ none ↦ none | some (a, b) ↦ some (c ∷ a, b) ]

split_nul-append : (s rest : Str) → IsPlain s → split_nul (s ++ 0 ∷ rest) ≡ some (s, rest)
unfolding split_nul
split_nul-append [] rest p = refl
split_nul-append (c ∷ s) rest p = rw (p.0, split_nul-append s rest p.1) refl

-- The number that a row of digits continues.
number_from : ℕ → Str → ℕ
number_from n [] = n
number_from n (c ∷ cs) = number_from (n * 10 + (c - b'0')) cs

number_from-snoc :
    (n : ℕ) (s : Str) (c : ℕ) → number_from n (s ++ c ∷ []) ≡ number_from n s * 10 + (c - b'0')
unfolding number_from
number_from-snoc n [] c = refl
number_from-snoc n (d ∷ s) c = number_from-snoc (n * 10 + (d - b'0')) s c

-- What holds of both branches, each under its outcome, holds of the branching on a decision.
dite_elim {ℓ κ ι} :
    {P : Type ℓ} {C : Type κ} (Q : C → Type ι) (d : Dec P) (x : P → C) (y : ¬ P → C)
    → ((h : P) → Q (x h))
    → ((h : ¬ P) → Q (y h))
    → Q (dite d x y)
dite_elim Q (yes p) x y f g = f p
dite_elim Q (no p) x y f g = g p

number_from-decimal_acc : (n : ℕ) (w : Acc ◌<◌ n) → number_from 0 (decimal_acc n w) ≡ n
unfolding decimal_acc
number_from-decimal_acc n (Acc.intro _ smaller) =
    dite_elim (λ s. number_from 0 s ≡ n) (dec_lt 9 n) _ _
      (λ h.
        number_from-snoc 0 (decimal_acc (n / 10) (smaller (n / 10) (tenth-lt n h))) (b'0' + n % 10)
        ∙ omega (arith, number_from-decimal_acc (n / 10) (smaller (n / 10) (tenth-lt n h))))
      (λ h. one_digit (omega arith))
  where
    one_digit : n ≤ 9 → number_from 0 ((b'0' + n) ∷ []) ≡ n
    one_digit h = unfold number_from in omega arith

decimal_acc-IsPlain : (n : ℕ) (w : Acc ◌<◌ n) → IsPlain (decimal_acc n w)
unfolding decimal_acc
decimal_acc-IsPlain n (Acc.intro _ smaller) =
    dite_elim IsPlain (dec_lt 9 n) _ _
      (λ h.
        All-append (λ b. (b == 0) ≡ false) (decimal_acc (n / 10) (smaller (n / 10) (tenth-lt n h)))
          _ (decimal_acc-IsPlain (n / 10) (smaller (n / 10) (tenth-lt n h))) (ground arith, tt))
      (λ h. (ground arith, tt))

-- The printed number is read back as it was, on every number: the printing ends.
number_from-decimal : (n : ℕ) → number_from 0 (decimal n) ≡ n
unfolding decimal
number_from-decimal n = number_from-decimal_acc n (all_below n)

decimal-IsPlain : (n : ℕ) → IsPlain (decimal n)
unfolding decimal
decimal-IsPlain n = decimal_acc-IsPlain n (all_below n)

-- A name, a NUL, a length, a NUL, and so many bytes; then the next file.
sized : Str → Str × Str → (Str × Str) × Str
sized name (digits, rest) = let n = number_from 0 digits in ((name, take n rest), drop n rest)

read_frame : Str → Option ((Str × Str) × Str)
unfolding sized
read_frame s = elim (split_nul s) [
  | none ↦ none
  | some (name, rest) ↦ elim (split_nul rest) [ none ↦ none | some p ↦ some (sized name p) ]
]

-- Reads frames until none is left; the fuel bounds their number.
pub read_frames : ℕ → Str → Option (List (Str × Str))
read_frames fuel [] = some []
read_frames zero (c ∷ s) = none
read_frames (suc fuel) (c ∷ s) = elim (read_frame (c ∷ s)) [
  | none ↦ none
  | some (f, rest) ↦ elim (read_frames fuel rest) [ none ↦ none | some fs ↦ some (f ∷ fs) ]
]

take-append : (a b : Str) → take (length a) (a ++ b) ≡ a
take-append [] b = refl
take-append (x ∷ a) b = ap (λ l. x ∷ l) (take-append a b)

drop-append : (a b : Str) → drop (length a) (a ++ b) ≡ b
drop-append [] b = refl
drop-append (x ∷ a) b = drop-append a b

frame-append :
    (name content rest : Str)
    → frame (name, content) ++ rest
      ≡ name ++ 0 ∷ (decimal (length content) ++ 0 ∷ (content ++ rest))
frame-append name content rest =
    append_assoc name (0 ∷ (decimal (length content) ++ 0 ∷ content)) rest
    ∙ ap (λ l. name ++ 0 ∷ l) (append_assoc (decimal (length content)) (0 ∷ content) rest)

read_frame-append :
    (name content rest : Str)
    → IsPlain name
    → read_frame (frame (name, content) ++ rest) ≡ some ((name, content), rest)
unfolding read_frame sized
read_frame-append name content rest p =
    ap read_frame (frame-append name content rest)
    ∙ rw
        (
          read_frame,
          split_nul-append name (decimal (length content) ++ 0 ∷ (content ++ rest)) p,
          split_nul-append (decimal (length content)) (content ++ rest)
              (decimal-IsPlain (length content)),
          sized,
          number_from-decimal (length content),
          take-append content rest,
          drop-append content rest,
        )
        refl

-- Names without a NUL.
abbrev pub ArePlain : List (Str × Str) → Type 0
ArePlain files = All (λ (f : Str × Str). IsPlain f.0) files

nonempty_frame :
    (name content rest : Str) → (c : ℕ) × (s : Str) × (frame (name, content) ++ rest ≡ c ∷ s)
nonempty_frame [] content rest = (0, _, refl)
nonempty_frame (c ∷ name) content rest = (c, _, refl)

read_frames-step :
    (fuel : ℕ) (s : Str) (f : Str × Str) (rest : Str) (fs : List (Str × Str))
    → ((c : ℕ) × (t : Str) × (s ≡ c ∷ t))
    → read_frame s ≡ some (f, rest)
    → read_frames fuel rest ≡ some fs
    → read_frames (suc fuel) s ≡ some (f ∷ fs)
unfolding read_frames
read_frames-step fuel s f rest fs (c, t, e) h k =
    ap (read_frames (suc fuel)) e ∙ rw (read_frames, sym (ap read_frame e) ∙ h, k) refl

read_frames-fuel :
    (fuel : ℕ) (files : List (Str × Str))
    → ArePlain files
    → length files ≤ fuel
    → read_frames fuel (frames files) ≡ some files
unfolding read_frames frames
read_frames-fuel fuel [] p h = refl
read_frames-fuel zero (f ∷ files) p h = absurd (omega arith)
read_frames-fuel (suc fuel) ((name, content) ∷ files) p h =
    read_frames-step fuel (frame (name, content) ++ frames files) (name, content) (frames files)
      files (nonempty_frame name content (frames files))
      (read_frame-append name content (frames files) p.0)
      (read_frames-fuel fuel files p.1 (omega arith))

length-frames : (files : List (Str × Str)) → length files ≤ length (frames files)
unfolding frames
length-frames [] = omega arith
length-frames ((name, content) ∷ files) = omega (
  arith,
  length-append (frame (name, content)) (frames files),
  length-append name (0 ∷ (decimal (length content) ++ 0 ∷ content)),
  length-frames files,
)

-- The framing loses nothing: what is hashed of a directory can be read back into the names and the
-- contents of its files, whatever bytes these hold, if no name holds a NUL. So two directories that
-- differ in a name or a byte are hashed from different bytes.
pub read_frames-frames :
    (files : List (Str × Str))
    → ArePlain files
    → read_frames (length (frames files)) (frames files) ≡ some files
read_frames-frames files p = read_frames-fuel (length (frames files)) files p (length-frames files)
