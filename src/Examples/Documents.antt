-- ===== src/Examples/Documents.antt =====
-- The theorems on results and on encrypted columns at concrete inputs.
use nangman_note.Base.{
  ℕ, String, Bool, true, false, Option, none, some, [], other, ok, thrown, ◌≡◌, ◌⊎◌, refl, arith,
  is_ok, if◌then◌else◌, str_eq, utf16_length, ◌∷◌,
}
use nangman_note.Meeting.Entity.{MeetingEntity, completed, recording, batch}
use nangman_note.Meeting.Context.{World, is_meeting, is_meeting_row}
use nangman_note.Meeting.Lifecycle.{find_by_id, update_processing_phase}
use nangman_note.Meeting.Editing.{update_prompt}
use nangman_note.Result.Entity.{ResultEntity}
use nangman_note.Result.Payload.{Sources}
use nangman_note.Result.{ResultServices}
use nangman_note.Result.Regeneration.{
  started, completed_event, failed, Studio, regenerate_async, execute_regenerate, prepare,
  replace_result,
}
use nangman_note.Result.Outcomes.{
  regeneration-concluded, regenerate_async-lock, failed-undone, IsKeptFor,
}
use nangman_note.Encryption.{Crypto, Keyring, encrypt, decrypt, plain, is_valid_hex}
use nangman_note.Encryption.RoundTrip.{IsSealing, decrypt-encrypt}
use nangman_note.Examples.Db.{
  Db, db_services, db-IsLawful, db-IsUp, a_meeting, an_upload, world_with,
}

abbrev a_result : ResultEntity
a_result = record {
  id = "d1";
  meeting_id = "m1";
  prompt_id = "p1";
  content = "text";
  metadata = record {
    title = none;
    generated_at = 1;
    total_duration = 0;
    transcript_word_count = 0;
    note_length = 0;
  };
}

-- The table of results: its row is there once the upload is, as if another request had saved it.
abbrev result_row : Db → Option ResultEntity
result_row db = elim db.upload [ none ↦ none | some u ↦ some a_result ]

abbrev empty_sources : Sources Db
empty_sources = record {
  Prompt = String;
  find_prompt = λ id sub s. ok id;
  find_note = λ id s. ok none;
  find_segments = λ id s. ok [];
  write_content = λ m p n ss s. (ok "written", s);
  empty_notice = λ m. "empty";
}

abbrev a_studio_of : ResultServices Db
a_studio_of = record {
  results = record {
    find_one = λ id s. ok (result_row s);
    save = λ r s. (ok r, s);
    insert = λ id prompt content metadata s.
        (thrown (other "duplicate key"), record s { upload = some an_upload });
  };
  sources = empty_sources;
  is_unique_constraint_error = λ e. true;
}

abbrev quiet_world : World Db
quiet_world = world_with (some (a_meeting recording batch)) none none

abbrev a_studio : Studio Db
a_studio = record { world = quiet_world; regenerating_meetings = λ id. false; announced = [] }

regeneration-concluded_example :
    let s' = execute_regenerate db_services a_studio_of "m1" "p2" "p1" none 9 a_studio in
    (s'.regenerating_meetings "m1" ≡ false)
    × ((s'.announced ≡ completed_event "m1" none ∷ [])
        ⊎ ((text : String) × (s'.announced ≡ failed "m1" none text ∷ [])))
regeneration-concluded_example =
    regeneration-concluded db_services a_studio_of "m1" "p2" "p1" none 9 a_studio

regenerate_async-lock_example :
    let (r, s') = regenerate_async db_services a_studio_of "m1" "p2" none 9 a_studio in
    ((false ≡ true) × (is_ok r ≡ false) × (s' ≡ a_studio))
    ⊎ ((false ≡ false)
        × (is_ok r ≡ true)
        × (s'.regenerating_meetings "m1" ≡ true)
        × (s'.announced ≡ started "m1" none ∷ []))
    ⊎ ((false ≡ false)
        × (is_ok r ≡ false)
        × (s'.regenerating_meetings "m1" ≡ false)
        × (s'.announced ≡ []))
regenerate_async-lock_example =
    regenerate_async-lock db_services a_studio_of "m1" "p2" none 9 a_studio

db-IsKeptFor : (owner_sub : Option String) → IsKeptFor db_services a_studio_of owner_sub
db-IsKeptFor owner_sub m m' s r k = grind (arith, r, k)

-- The meeting has a result, and at the failure it has none.
abbrev asked : Studio Db
asked = record a_studio {
  world = world_with (some (a_meeting completed batch)) none (some an_upload);
}

failed-undone_example :
    (m' : MeetingEntity) × (m'.prompt_id ≡ "p1")
    × (m'.status ≡ completed)
    × (m'.processing_phase ≡ none)
    × (db_services.meetings.rows.find_one
          (is_meeting "m1" (some "u1"))
          (execute_regenerate db_services a_studio_of "m1" "p2" "p1"
            (some "u1")
            9
            a_studio).world.store
        ≡ ok (some m'))
unfolding is_meeting is_meeting_row regenerate_async prepare find_by_id replace_result update_prompt
    update_processing_phase
failed-undone_example =
    failed-undone db_services a_studio_of db-IsLawful db-IsUp (some "u1") (db-IsKeptFor (some "u1"))
      "m1" "p2" "p1" 9 9 asked a_studio quiet_world (a_meeting completed batch)
      (a_meeting recording batch) (other "Result not found for meeting") refl refl refl refl refl

-- A cipher for one text: the three buffers that occur.
data Buffer : Type 0 where
  vector tag cipher other_bytes : Buffer

abbrev hex_of : Buffer → String
hex_of vector = "0102030405060708090a0b0c"
hex_of tag = "000102030405060708090a0b0c0d0e0f"
hex_of cipher = "c1f3"
hex_of other_bytes = ""

abbrev read_hex : String → Buffer
read_hex s =
    if str_eq s "0102030405060708090a0b0c"
    then vector
    else (if str_eq s "000102030405060708090a0b0c0d0e0f"
        then tag
        else (if str_eq s "c1f3" then cipher else other_bytes))

abbrev bytes_in : Buffer → ℕ
bytes_in vector = 12
bytes_in tag = 16
bytes_in cipher = 2
bytes_in other_bytes = 0

abbrev opened_text : Buffer → Option String
opened_text cipher = some "hi"
opened_text b = none

abbrev a_crypto : Crypto
a_crypto = record {
  Bytes = Buffer;
  Key = Bool;
  same_key = λ a b. true;
  to_hex = hex_of;
  from_hex = read_hex;
  byte_length = bytes_in;
  seal = λ k iv aad text. (tag, cipher);
  unseal = λ k iv t aad b. opened_text b;
  unseal_legacy = λ k iv t b. none;
}

abbrev a_ring : Keyring a_crypto
a_ring = record { keys = λ kid. some true; active_kid = "k1"; legacy_keys = [] }

a_crypto-IsSealing : IsSealing a_crypto true vector "aad" "hi"
unfolding is_valid_hex utf16_length
a_crypto-IsSealing = record {
  iv_hex = refl;
  tag_hex = refl;
  bytes_hex = refl;
  iv_read = refl;
  tag_read = refl;
  bytes_read = refl;
  iv_bytes = refl;
  tag_bytes = refl;
  opens = refl;
}

decrypt-encrypt_example :
    (sealed : String) × (encrypt a_crypto a_ring vector "aad" "hi" ≡ some sealed)
    × (decrypt a_crypto a_ring sealed "aad" ≡ plain "hi")
decrypt-encrypt_example =
    decrypt-encrypt a_crypto true vector "aad" "hi" a_crypto-IsSealing a_ring a_ring refl refl refl
      refl
