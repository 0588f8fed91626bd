-- ===== src/Transcription/Segments/Texts.antt =====
-- Texts without their white space.
use Prim.Native.String.{◌∷◌ as cons, [] as nil}
use text.Mathlib.TextLemmas.{nil-append, cons-append}
use nangman_note.Base.{
  String, Bool, true, false, ◌≡◌, refl, ◌∙◌, arith, truthy, is_space, trim, trim_start, trim_end,
  ◌<>◌, if◌then◌else◌, Bool-cases, inl, inr,
}

-- A text without its white space.
unfoldable pub ink : String → String
ink nil = nil
ink (cons c s) = let rest = ink s in if is_space c then rest else cons c rest

pub append_nil : (s : String) → s <> "" ≡ s
append_nil nil = rw nil-append
append_nil (cons c s) = rw (cons-append, append_nil s)

pub append_assoc : (s t u : String) → (s <> t) <> u ≡ s <> (t <> u)
append_assoc nil t u = rw (nil-append, nil-append) refl
append_assoc (cons c s) t u = rw (cons-append, cons-append, cons-append, append_assoc s t u) refl

pub ink-append : (s t : String) → ink (s <> t) ≡ ink s <> ink t
unfolding ink
ink-append nil t = rw (nil-append, nil-append) refl
ink-append (cons c s) t = elim (Bool-cases (is_space c)) [
  | inl e ↦ rw (cons-append, e, ink-append s t) refl
  | inr e ↦ rw (cons-append, e, ink-append s t, cons-append) refl
]

pub ink-trim_start : (s : String) → ink (trim_start s) ≡ ink s
unfolding trim_start ink
ink-trim_start nil = refl
ink-trim_start (cons c s) = ground (arith, ink-trim_start s)

pub truthy-nil : (s : String) → truthy s ≡ false → s ≡ ""
truthy-nil nil h = refl
truthy-nil (cons c s) h = cc

pub ink-trim_end : (s : String) → ink (trim_end s) ≡ ink s
unfolding trim_end ink
ink-trim_end nil = refl
ink-trim_end (cons c s) = ground (arith, ink-trim_end s, truthy-nil (trim_end s))

pub ink-trim : (s : String) → ink (trim s) ≡ ink s
ink-trim s = unfold trim in (ink-trim_end (trim_start s) ∙ ink-trim_start s)

-- A text with a character that is no white space.
abbrev pub has_ink : String → Bool
has_ink s = truthy (ink s)

pub truthy-ink : (s : String) → has_ink s ≡ true → truthy s ≡ true
unfolding ink
truthy-ink nil h = cc
truthy-ink (cons c s) h = refl

pub truthy-trim : (s : String) → has_ink s ≡ true → truthy (trim s) ≡ true
truthy-trim s h = truthy-ink (trim s) (rw (ink-trim s) h)

pub truthy-appended : (s t : String) → truthy s ≡ true → truthy (s <> t) ≡ true
truthy-appended nil t h = cc
truthy-appended (cons c s) t h = rw cons-append refl

pub truthy-append : (s t : String) → truthy t ≡ true → truthy (s <> t) ≡ true
truthy-append nil t h = rw nil-append h
truthy-append (cons c s) t h = rw cons-append refl

pub has_ink-append : (s t : String) → has_ink t ≡ true → has_ink (s <> t) ≡ true
has_ink-append s t h = rw (ink-append s t) (truthy-append (ink s) (ink t) h)
