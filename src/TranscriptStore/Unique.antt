-- ===== src/TranscriptStore/Unique.antt =====
-- transcriptionStore.ts: a result of the provider is shown once.
use nangman_note.Base.{
  String, Bool, false, Option, List, [], ◌∷◌, ◌++◌, map, ◌≡◌, refl, arith, str_eq, Bool-cases, inl,
  inr, eq_iff,
}
use nangman_note.TranscriptStore.{
  FinalSegment, TranscriptionState, Content, Payload, translation, partial_result, final_result,
  has_id, translate, add_final, is_duplicate, final_segment, handle_payload,
}

-- No two segments have the same result id.
abbrev pub Distinct : List FinalSegment → Type 0
Distinct [] = Unit
Distinct (s ∷ ss) = (has_id s.result_id ss ≡ false) × Distinct ss

translate-id :
    (id : String) (text : Option String) (b : Bool) (s : FinalSegment)
    → (translate id text b s).result_id ≡ s.result_id
unfolding translate
translate-id id text b s = ground arith

has_id-translate :
    (key id : String) (text : Option String) (b : Bool) (ss : List FinalSegment)
    → has_id key (map (translate id text b) ss) ≡ has_id key ss
has_id-translate key id text b [] = refl
has_id-translate key id text b (s ∷ ss) =
    rw (translate-id id text b s, has_id-translate key id text b ss) refl

translated-Distinct :
    (id : String) (text : Option String) (b : Bool) (ss : List FinalSegment)
    → Distinct ss
    → Distinct (map (translate id text b) ss)
translated-Distinct id text b [] d = tt
translated-Distinct id text b (s ∷ ss) (h, d) = (
  rw (translate-id id text b s, has_id-translate s.result_id id text b ss) h,
  translated-Distinct id text b ss d,
)

has_id-append :
    (key : String) (ss : List FinalSegment) (x : FinalSegment)
    → has_id key ss ≡ false
    → str_eq x.result_id key ≡ false
    → has_id key (ss ++ (x ∷ [])) ≡ false
has_id-append key [] x h e = ground arith
has_id-append key (s ∷ ss) x h e = grind (arith, has_id-append key ss x)

appended-Distinct :
    (ss : List FinalSegment) (x : FinalSegment)
    → Distinct ss
    → has_id x.result_id ss ≡ false
    → Distinct (ss ++ (x ∷ []))
appended-Distinct [] x d h = (refl, tt)
appended-Distinct (s ∷ ss) x (k, d) h = (
  has_id-append s.result_id ss x k
      (grind (arith, eq_iff s.result_id x.result_id, eq_iff x.result_id s.result_id)),
  appended-Distinct ss x d (ground arith),
)

add_final-Distinct :
    (sanitize normalize : String → String) (p : Content) (ss : List FinalSegment)
    → Distinct ss
    → Distinct (add_final sanitize normalize p ss)
unfolding add_final is_duplicate
add_final-Distinct sanitize normalize p ss d =
    elim (Bool-cases (is_duplicate sanitize normalize p ss)) [
      | inl e ↦ rw e d
      | inr e ↦ rw e (appended-Distinct ss (final_segment sanitize normalize p) d (ground arith))
    ]

-- A message of the gateway never gives two segments the same result id: none have it afterwards if
-- none had it before, whether the message translates a segment, updates the running text or adds a
-- final text. The synchronisation with the server is not a message.
pub handle_payload-Distinct :
    (sanitize normalize : String → String) (p : Payload) (s : TranscriptionState)
    → Distinct s.segments
    → Distinct (handle_payload sanitize normalize p s).segments
unfolding handle_payload
handle_payload-Distinct sanitize normalize (translation id text b) s d =
    translated-Distinct id text b s.segments d
handle_payload-Distinct sanitize normalize (partial_result p) s d = ground arith
handle_payload-Distinct sanitize normalize (final_result p) s d =
    add_final-Distinct sanitize normalize p s.segments d
