-- ===== src/Kvstore/Text.antt =====
-- The text functions of Go's strings and bytes packages that Save and Restore use, over bytes.
use mathlib.Core.List.{append_assoc}
use cloudlab_k8s.Prelude.{
  ℕ, ◌≡◌, refl, ap, ◌≢◌, Bool, true, false, List, [], ◌∷◌, ◌++◌, map, arith, Text, nat_beq,
  nat_beq_iff, if◌then◌else◌,
}

abbrev pub newline : ℕ
newline = b'\n'

-- `separator` of store.go
abbrev pub separator : ℕ
separator = b';'

-- strings.Join(parts, ";")
unfoldable pub join : List Text → Text
join [] = []
join (x ∷ []) = x
join (x ∷ y ∷ rest) = x ++ separator ∷ join (y ∷ rest)

-- A byte in front of the first part.
abbrev pub cons_first : ℕ → List Text → List Text
cons_first c [] = (c ∷ []) ∷ []
cons_first c (x ∷ xs) = (c ∷ x) ∷ xs

-- strings.Split(line, ";")
unfoldable pub split : Text → List Text
split [] = [] ∷ []
split (c ∷ s) = let rest = split s in if nat_beq c separator then [] ∷ rest else cons_first c rest

-- strings.Trim(part, "\n")
unfoldable pub trim_left : Text → Text
trim_left [] = []
trim_left (c ∷ s) = if nat_beq c newline then trim_left s else c ∷ s

abbrev pub cons_trimmed : ℕ → Text → Text
cons_trimmed c [] = if nat_beq c newline then [] else c ∷ []
cons_trimmed c (d ∷ s) = c ∷ d ∷ s

unfoldable pub trim_right : Text → Text
trim_right [] = []
trim_right (c ∷ s) = cons_trimmed c (trim_right s)

unfoldable pub trim : Text → Text
unfolding trim_left trim_right
trim s = trim_right (trim_left s)

-- buffer.ReadString('\n'): the bytes up to and with the newline, those behind it, and whether the
-- buffer ended before one was found.
pub record Line : Type 0 where
  pub text : Text
  pub rest : Text
  pub eof : Bool

unfoldable pub read_line : Text → Line
read_line [] = record { text = []; rest = []; eof = true }
read_line (c ∷ s) =
    let l = read_line s in
    if nat_beq c newline
    then record { text = c ∷ []; rest = s; eof = false }
    else record l { text = c ∷ l.text }

-- No byte of the text has a meaning in a file.
abbrev pub IsClean : Text → Type 0
IsClean [] = Unit
IsClean (c ∷ s) = (c ≢ separator) × (c ≢ newline) × IsClean s

abbrev pub AllClean : List Text → Type 0
AllClean [] = Unit
AllClean (x ∷ xs) = IsClean x × AllClean xs

-- No newline stands in the text.
abbrev pub IsLine : Text → Type 0
IsLine [] = Unit
IsLine (c ∷ s) = (c ≢ newline) × IsLine s

pub IsClean-IsLine : (s : Text) → IsClean s → IsLine s
IsClean-IsLine [] h = tt
IsClean-IsLine (c ∷ s) h = (h.1, IsClean-IsLine s h.2)

pub IsLine-append : (s t : Text) → IsLine s → IsLine t → IsLine (s ++ t)
IsLine-append [] t h k = k
IsLine-append (c ∷ s) t h k = (h.0, IsLine-append s t h.1 k)

pub IsLine-join : (xs : List Text) → AllClean xs → IsLine (join xs)
unfolding join
IsLine-join [] h = tt
IsLine-join (x ∷ []) h = IsClean-IsLine x h.0
IsLine-join (x ∷ y ∷ rest) h =
    IsLine-append x (separator ∷ join (y ∷ rest)) (IsClean-IsLine x h.0)
      (ground arith, IsLine-join (y ∷ rest) h.1)

pub split-append : (x r : Text) → IsClean x → split (x ++ separator ∷ r) ≡ x ∷ split r
unfolding split
split-append [] r h = refl
split-append (c ∷ x) r h = ground (arith, split-append x r h.2, nat_beq_iff c separator)

split-newline : (x : Text) → IsClean x → split (x ++ newline ∷ []) ≡ (x ++ newline ∷ []) ∷ []
unfolding split
split-newline [] h = refl
split-newline (c ∷ x) h = ground (arith, split-newline x h.2, nat_beq_iff c separator)

pub read_line-append :
    (x r : Text)
    → IsLine x
    → read_line (x ++ newline ∷ r) ≡ record { text = x ++ newline ∷ []; rest = r; eof = false }
unfolding read_line
read_line-append [] r h = refl
read_line-append (c ∷ x) r h = rw (read_line-append x r h.1) (ground (arith, nat_beq_iff c newline))

trim_left-IsLine : (x : Text) → IsLine x → trim_left x ≡ x
unfolding trim_left
trim_left-IsLine [] h = refl
trim_left-IsLine (c ∷ x) h = ground (arith, nat_beq_iff c newline)

trim_left-newline : (c : ℕ) (x : Text) → c ≢ newline → trim_left (c ∷ x) ≡ c ∷ x
unfolding trim_left
trim_left-newline c x h = ground (arith, nat_beq_iff c newline)

cons_trimmed_ne : (c : ℕ) (x : Text) → c ≢ newline → cons_trimmed c x ≡ c ∷ x
cons_trimmed_ne c [] h = ground arith
cons_trimmed_ne c (d ∷ x) h = refl

trim_right-IsLine : (x : Text) → IsLine x → trim_right x ≡ x
unfolding trim_right
trim_right-IsLine [] h = refl
trim_right-IsLine (c ∷ x) h = rw (trim_right-IsLine x h.1) (cons_trimmed_ne c x h.0)

trim_right-newline : (x : Text) → IsLine x → trim_right (x ++ newline ∷ []) ≡ x
unfolding trim_right
trim_right-newline [] h = refl
trim_right-newline (c ∷ x) h = rw (trim_right-newline x h.1) (cons_trimmed_ne c x h.0)

pub trim-IsLine : (x : Text) → IsLine x → trim x ≡ x
unfolding trim
trim-IsLine x h = rw (trim_left-IsLine x h) (trim_right-IsLine x h)

trim-newline : (x : Text) → IsLine x → trim (x ++ newline ∷ []) ≡ x
unfolding trim
trim-newline [] h = refl
trim-newline (c ∷ x) h =
    rw (trim_left-newline c (x ++ newline ∷ []) h.0) (trim_right-newline (c ∷ x) h)

-- Splitting a joined line and trimming its parts gives the parts back, where there is a part and
-- all are free of `;` and newlines.
pub map-trim-split-join :
    (x : Text) (xs : List Text)
    → AllClean (x ∷ xs)
    → map trim (split (join (x ∷ xs) ++ newline ∷ [])) ≡ x ∷ xs
unfolding join
map-trim-split-join x [] h =
    rw (split-newline x h.0) (ap (λ y. y ∷ []) (trim-newline x (IsClean-IsLine x h.0)))
map-trim-split-join x (y ∷ xs) h =
    rw (append_assoc, split-append x (join (y ∷ xs) ++ newline ∷ []) h.0)
      (rw (trim-IsLine x (IsClean-IsLine x h.0), map-trim-split-join y xs h.1))
