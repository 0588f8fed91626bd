-- ===== src/Encryption/RoundTrip.antt =====
-- encryption.service.ts: what was encrypted is decrypted, under the same key and the same
-- associated data.
use Prim.Native.String.append
use Prim.Native.String.{[], ◌∷◌}
use Prim.Native.Char.{Char}
use nangman_note.Base.{
  String, Bool, true, false, some, List, ◌≡◌, inl, inr, refl, sym, ap, ◌∙◌, arith, ◌&&◌, not,
  truthy, starts_with, starts_with-append, ◌<>◌, Bool-cases,
}
use nangman_note.Encryption.{
  plain, Crypto, is_separator, split_parts, join_parts, all_hex, is_valid_hex, iv_length,
  auth_tag_length, Keyring, envelope, encrypt, decrypt, decrypt_parts, open_with,
}

abbrev pub is_free : String → Bool
is_free [] = true
is_free (c ∷ s) = not (is_separator c) && is_free s

split-free : (p : String) → is_free p ≡ true → split_parts p ≡ List.◌∷◌ p List.[]
unfolding split_parts
split-free [] h = refl
split-free (c ∷ s) h = grind (arith, split-free s)

append_nil : (t : String) → "" <> t ≡ t
append_nil t = λ i. append.nil t i

append_cons : (c : Char) (s t : String) → (c ∷ s) <> t ≡ c ∷ (s <> t)
append_cons c s t = λ i. append.cons c s t i

colon_cons : (s : String) → ":" <> s ≡ ":" ∷ s
colon_cons s = append_cons ":" "" s ∙ ap (λ t. ":" ∷ t) (append_nil s)

append_assoc : (a b c : String) → (a <> b) <> c ≡ a <> (b <> c)
append_assoc [] b c = rw (append_nil, append_nil) refl
append_assoc (x ∷ a) b c =
    rw (append_cons x a b, append_cons x (a <> b) c, append_cons x a (b <> c), append_assoc a b c)
      refl

enc_colon : (s : String) → "enc" <> ":" <> s ≡ "enc:" <> s
enc_colon s = sym (append_assoc "enc" ":" s)

split-append :
    (p s : String) → is_free p ≡ true → split_parts (p <> ":" <> s) ≡ List.◌∷◌ p (split_parts s)
unfolding split_parts
split-append [] s h = rw (append_nil, colon_cons) refl
split-append (c ∷ p) s h = rw (append_cons) (grind (arith, split-append p s))

hex-free : (s : String) → all_hex s ≡ true → is_free s ≡ true
hex-free [] h = refl
hex-free (c ∷ s) h = grind (arith, hex-free s)

starts : (s : String) → starts_with ("enc" <> ":" <> s) "enc:" ≡ true
starts s = rw (enc_colon s) (starts_with-append "enc:" s)

truthy-append : (c : Char) (p s : String) → truthy ((c ∷ p) <> s) ≡ true
truthy-append c p s = rw (append_cons c p s) refl

-- What the round trip relies on of Node for one call of `encrypt`: the hexadecimal form of the three
-- buffers has two digits per byte and is read back; a text that is sealed has a tag of 16 bytes and
-- some bytes, and is opened with the same key, vector, tag and associated data.
pub record IsSealing (crypto : Crypto) (key : crypto.Key) (iv : crypto.Bytes) (aad text : String)
    : Type 0 where
  pub iv_hex : is_valid_hex (crypto.to_hex iv) true ≡ true
  pub tag_hex : is_valid_hex (crypto.to_hex (crypto.seal key iv aad text).0) true ≡ true
  pub bytes_hex : is_valid_hex (crypto.to_hex (crypto.seal key iv aad text).1) false ≡ true
  pub iv_read : crypto.from_hex (crypto.to_hex iv) ≡ iv
  pub tag_read :
      crypto.from_hex (crypto.to_hex (crypto.seal key iv aad text).0)
      ≡ (crypto.seal key iv aad text).0
  pub bytes_read :
      crypto.from_hex (crypto.to_hex (crypto.seal key iv aad text).1)
      ≡ (crypto.seal key iv aad text).1
  pub iv_bytes : crypto.byte_length iv ≡ iv_length
  pub tag_bytes : crypto.byte_length (crypto.seal key iv aad text).0 ≡ auth_tag_length
  pub opens :
      let (tag, bytes) = crypto.seal key iv aad text in
      crypto.unseal key iv tag aad bytes ≡ some text

-- The parts of an envelope, joined and split again.
abbrev six : String → String → String → String → List String
six kid iv tag bytes =
    List.◌∷◌ "enc"
      (List.◌∷◌ "v1" (List.◌∷◌ kid (List.◌∷◌ iv (List.◌∷◌ tag (List.◌∷◌ bytes List.[])))))

split-join :
    (kid iv tag bytes : String)
    → is_free kid ≡ true
    → is_free iv ≡ true
    → is_free tag ≡ true
    → is_free bytes ≡ true
    → split_parts (join_parts (six kid iv tag bytes)) ≡ six kid iv tag bytes
unfolding join_parts
split-join kid iv tag bytes a b c d =
    rw
      (
        split-append "enc" _ refl,
        split-append "v1" _ refl,
        split-append kid _ a,
        split-append iv _ b,
        split-append tag _ c,
        split-free bytes d,
      )
      refl

hex-free_valid : (s : String) (b : Bool) → is_valid_hex s b ≡ true → is_free s ≡ true
unfolding is_valid_hex
hex-free_valid s b h = hex-free s (ground arith)

module _ (crypto : Crypto) where
  open crypto use {Bytes, Key, to_hex, seal}

  decrypt-versioned :
      (ring : Keyring crypto) (sealed aad : String)
      → truthy sealed ≡ true
      → starts_with sealed "enc:" ≡ true
      → decrypt crypto ring sealed aad ≡ decrypt_parts crypto ring (split_parts sealed) aad
  unfolding decrypt
  decrypt-versioned ring sealed aad t p = rw (t, p) refl

  module _ (key : Key) (iv : Bytes) (aad text : String)
      (sealing : IsSealing crypto key iv aad text) where
    abbrev tag_of : String
    tag_of = to_hex (seal key iv aad text).0

    abbrev bytes_of : String
    bytes_of = to_hex (seal key iv aad text).1

    open_with-sealed :
        open_with crypto (some key) iv (seal key iv aad text).0 aad bytes_of ≡ plain text
    unfolding open_with
    open_with-sealed = rw (sealing.bytes_read, sealing.opens) refl

    opened :
        (ring : Keyring crypto) (kid : String)
        → ring.keys kid ≡ some key
        → truthy kid ≡ true
        → decrypt_parts crypto ring (six kid (to_hex iv) tag_of bytes_of) aad ≡ plain text
    unfolding decrypt_parts
    opened ring kid k n =
        rw
          (
            n, sealing.iv_hex, sealing.tag_hex, sealing.bytes_hex, sealing.iv_read,
            sealing.tag_read, sealing.iv_bytes, sealing.tag_bytes, k, open_with-sealed,
          )
          refl

    decrypt-envelope :
        (ring : Keyring crypto) (kid : String)
        → is_free kid ≡ true
        → decrypt crypto ring (envelope crypto kid iv (seal key iv aad text)) aad
          ≡ decrypt_parts crypto ring (six kid (to_hex iv) tag_of bytes_of) aad
    unfolding envelope join_parts
    decrypt-envelope ring kid f =
        decrypt-versioned ring (envelope crypto kid iv (seal key iv aad text)) aad
          (truthy-append "e" "nc" _) (starts _)
        ∙ ap (λ parts. decrypt_parts crypto ring parts aad)
            (split-join kid (to_hex iv) tag_of bytes_of f
              (hex-free_valid (to_hex iv) true sealing.iv_hex)
              (hex-free_valid tag_of true sealing.tag_hex)
              (hex-free_valid bytes_of false sealing.bytes_hex))

    -- A text that was encrypted under the active key is decrypted to itself, with the same
    -- associated data and by any keyring that still has that key under that id, when the id has no
    -- colon and is not empty, and Node's cipher and hexadecimal form do for this text what they
    -- are documented to do.
    pub decrypt-encrypt :
        (ring later : Keyring crypto)
        → ring.keys ring.active_kid ≡ some key
        → later.keys ring.active_kid ≡ some key
        → is_free ring.active_kid ≡ true
        → truthy ring.active_kid ≡ true
        → (sealed : String) × (encrypt crypto ring iv aad text ≡ some sealed)
          × (decrypt crypto later sealed aad ≡ plain text)
    unfolding encrypt decrypt
    decrypt-encrypt ring later k k2 f n = elim (Bool-cases (truthy text)) [
      | inl t ↦ (
        envelope crypto ring.active_kid iv (seal key iv aad text),
        rw (t, k) refl,
        decrypt-envelope later ring.active_kid f ∙ opened later ring.active_kid k2 n,
      )
      | inr t ↦ (text, rw t refl, rw t refl)
    ]
