-- ===== src/Encryption.antt =====
-- shared/crypto/encryption.service.ts: the envelope around an encrypted column. The cipher, its
-- random values, the hash and the hexadecimal form of bytes are parameters.
pub mod RoundTrip
use Prim.Native.String.{[], ◌∷◌}
use Prim.Native.Char.{Char, code}
use nangman_note.Base.{
  ℕ, String, Bool, true, false, Option, none, some, List, ◌+◌, ◌%◌, ◌==◌, ◌&&◌, ◌||◌, not, leb,
  truthy, is_some, if◌then◌else◌, str_eq, starts_with, utf16_length, ◌<>◌, length,
}

pub data DecryptionFailureReason : Type 0 where
  malformed_envelope unsupported_version unknown_key authentication_failed : DecryptionFailureReason

-- A text, or the error that `EncryptionDecryptionError` carries.
pub data Decrypted : Type 0 where
  plain : String → Decrypted
  refused : DecryptionFailureReason → Decrypted

-- Node's crypto and Buffer: `seal` gives the authentication tag and the encrypted bytes, `open`
-- none when the tag does not fit; `byte_length` is the length of a buffer.
pub record Crypto : Type 1 where
  pub Bytes : Type 0
  pub Key : Type 0
  pub same_key : Key → Key → Bool
  pub to_hex : Bytes → String
  pub from_hex : String → Bytes
  pub byte_length : Bytes → ℕ
  pub seal : Key → Bytes → String → String → Bytes × Bytes
  pub unseal : Key → Bytes → Bytes → String → Bytes → Option String
  pub unseal_legacy : Key → Bytes → Bytes → Bytes → Option String

abbrev pub is_separator : Char → Bool
is_separator c = code c == 58

abbrev pub put_first : Char → List String → List String
put_first c List.[] = List.◌∷◌ (c ∷ []) List.[]
put_first c (List.◌∷◌ p ps) = List.◌∷◌ (c ∷ p) ps

-- `s.split(':')`.
unfoldable pub split_parts : String → List String
split_parts [] = List.◌∷◌ [] List.[]
split_parts (c ∷ s) =
    let rest = split_parts s in if is_separator c then List.◌∷◌ [] rest else put_first c rest

-- `parts.join(':')`.
unfoldable pub join_parts : List String → String
join_parts List.[] = ""
join_parts (List.◌∷◌ p List.[]) = p
join_parts (List.◌∷◌ p (List.◌∷◌ q ps)) = p <> ":" <> join_parts (List.◌∷◌ q ps)

abbrev pub is_hex_digit : Char → Bool
is_hex_digit c =
    let n = code c in (leb 48 n && leb n 57) || (leb 65 n && leb n 70) || (leb 97 n && leb n 102)

abbrev pub all_hex : String → Bool
all_hex [] = true
all_hex (c ∷ s) = is_hex_digit c && all_hex s

unfoldable pub is_valid_hex : String → Bool → Bool
unfolding utf16_length
is_valid_hex value allow_empty =
    (allow_empty || truthy value) && utf16_length value % 2 == 0 && all_hex value

abbrev pub iv_length : ℕ
iv_length = 12

abbrev pub legacy_iv_length : ℕ
legacy_iv_length = 16

abbrev pub auth_tag_length : ℕ
auth_tag_length = 16

unfoldable pub looks_like_legacy : List String → Bool
unfolding utf16_length
looks_like_legacy (List.◌∷◌ a (List.◌∷◌ b (List.◌∷◌ c List.[]))) =
    utf16_length a == legacy_iv_length + legacy_iv_length
    || utf16_length b == auth_tag_length + auth_tag_length
looks_like_legacy parts = false

module _ (crypto : Crypto) where
  open crypto use {Bytes, Key, same_key, to_hex, from_hex, byte_length, seal, unseal, unseal_legacy}

  -- The service after its constructor: the keys by their ids, the active one, and the keys that
  -- are tried on an envelope of the old form.
  pub record Keyring : Type 0 where
    pub keys : String → Option Key
    pub active_kid : String
    pub legacy_keys : List Key

  abbrev has_key : Key → List Key → Bool
  has_key k List.[] = false
  has_key k (List.◌∷◌ x xs) = same_key k x || has_key k xs

  -- The constructor's filter: of equal keys the first is kept; `seen` are those before.
  unfoldable pub unique_keys : List Key → List Key → List Key
  unique_keys seen List.[] = List.[]
  unique_keys seen (List.◌∷◌ k ks) =
      let rest = unique_keys (List.◌∷◌ k seen) ks in
      if has_key k seen then rest else List.◌∷◌ k rest

  unfoldable pub envelope : String → Bytes → Bytes × Bytes → String
  unfolding join_parts
  envelope kid iv (tag, bytes) = join_parts (
      List.◌∷◌ "enc" (
        List.◌∷◌ "v1" (
          List.◌∷◌ kid
            (List.◌∷◌ (to_hex iv) (List.◌∷◌ (to_hex tag) (List.◌∷◌ (to_hex bytes) List.[]))))))

  -- `encrypt`, with the random initialisation vector; none when the active key is missing.
  unfoldable pub encrypt : Keyring → Bytes → String → String → Option String
  unfolding envelope
  encrypt ring iv aad plaintext =
      if not (truthy plaintext) then some plaintext else elim (ring.keys ring.active_kid) [
        | none ↦ none
        | some key ↦ some (envelope ring.active_kid iv (seal key iv aad plaintext))
      ]

  abbrev pub authenticated : Option String → Decrypted
  authenticated none = refused authentication_failed
  authenticated (some text) = plain text

  unfoldable pub open_with : Option Key → Bytes → Bytes → String → String → Decrypted
  open_with none iv tag aad bytes = refused unknown_key
  open_with (some key) iv tag aad bytes = authenticated (unseal key iv tag aad (from_hex bytes))

  unfoldable pub decrypt_parts : Keyring → List String → String → Decrypted
  unfolding open_with is_valid_hex
  decrypt_parts ring
        (List.◌∷◌ prefix
          (List.◌∷◌ version (List.◌∷◌ kid (List.◌∷◌ iv (List.◌∷◌ tag (List.◌∷◌ bytes List.[]))))))
        aad =
      if not (str_eq prefix "enc")
      then refused malformed_envelope
      else (if not (str_eq version "v1")
          then refused unsupported_version
          else (if not (truthy kid) || not (is_valid_hex iv true) || not (is_valid_hex tag true)
              then refused malformed_envelope
              else (if not (is_valid_hex bytes false)
                  then refused malformed_envelope
                  else (if not (byte_length (from_hex iv) == iv_length)
                        || not (byte_length (from_hex tag) == auth_tag_length)
                      then refused malformed_envelope
                      else open_with (ring.keys kid) (from_hex iv) (from_hex tag) aad bytes))))
  decrypt_parts ring parts aad = refused malformed_envelope

  abbrev first_opened : List Key → Bytes → Bytes → Bytes → Decrypted
  first_opened List.[] iv tag bytes = refused authentication_failed
  first_opened (List.◌∷◌ k ks) iv tag bytes = elim (unseal_legacy k iv tag bytes) [
    | some text ↦ plain text
    | none ↦ first_opened ks iv tag bytes
  ]

  unfoldable pub decrypt_legacy : Keyring → List String → Decrypted
  unfolding is_valid_hex
  decrypt_legacy ring (List.◌∷◌ iv (List.◌∷◌ tag (List.◌∷◌ bytes List.[]))) =
      if not (is_valid_hex iv true) || not (is_valid_hex tag true) || not (is_valid_hex bytes false)
      then refused malformed_envelope
      else (if not (byte_length (from_hex iv) == legacy_iv_length)
            || not (byte_length (from_hex tag) == auth_tag_length)
          then refused malformed_envelope
          else first_opened ring.legacy_keys (from_hex iv) (from_hex tag) (from_hex bytes))
  decrypt_legacy ring parts = refused malformed_envelope

  unfoldable pub decrypt : Keyring → String → String → Decrypted
  unfolding decrypt_parts decrypt_legacy split_parts looks_like_legacy
  decrypt ring ciphertext aad =
      if not (truthy ciphertext)
      then plain ciphertext
      else (if starts_with ciphertext "enc:"
          then decrypt_parts ring (split_parts ciphertext) aad
          else (if not (looks_like_legacy (split_parts ciphertext))
              then plain ciphertext
              else decrypt_legacy ring (split_parts ciphertext)))

  unfoldable pub is_encrypted : String → Bool
  unfolding split_parts looks_like_legacy
  is_encrypted value =
      truthy value && (starts_with value "enc:" || looks_like_legacy (split_parts value))
