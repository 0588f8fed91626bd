-- ===== src/NoteStore/Drafts.antt =====
-- domains/note/stores/noteDrafts.ts: the backups of a note in the browser's storage. A key's value
-- is given as what `JSON.parse` makes of it, with numbers that are not natural left out.
use nangman_note.Base.{
  ℕ, String, Bool, true, false, Option, none, some, List, [], ◌∷◌, ◌≡◌, ◌⊎◌, inl, inr, refl, ◌==◌,
  ◌&&◌, ◌||◌, ltb, or_else, if◌then◌else◌, str_eq, starts_with, All, ◌<>◌, arith, Bool-cases,
  eq_iff,
}

pub record NoteDraft : Type 0 where
  pub key : String
  pub content : String
  pub base_revision : Option ℕ
  pub saved_at : ℕ

-- An object with its three fields, the value null (or another value without these fields), and a
-- text that is no JSON.
pub data Item : Type 0 where
  object_item : Option String → Option ℕ → Option ℕ → Item
  null_item : Item
  text_item : String → Item

-- `accepts` is whether `setItem` succeeds, and `available` whether the others do.
pub record LocalStorage : Type 0 where
  pub items : List (String × Item)
  pub accepts : Bool
  pub available : Bool

abbrev pub prefix : String
prefix = "transnote_offline_note_"

abbrev pub new_draft_key : String → String → String
new_draft_key meeting_id uuid = prefix <> meeting_id <> ":" <> uuid

abbrev pub is_draft_key : String → String → Bool
is_draft_key meeting_id key =
    str_eq key (prefix <> meeting_id) || starts_with key (prefix <> meeting_id <> ":")

-- The draft that an item holds. The original single-key backup was plain text.
unfoldable pub parse_draft : String → String → Item → Option NoteDraft
parse_draft meeting_id key (object_item none base saved) = none
parse_draft meeting_id key (object_item (some content) base saved) =
    some (record { key = key; content = content; base_revision = base; saved_at = or_else saved 0 })
parse_draft meeting_id key null_item = none
parse_draft meeting_id key (text_item raw) =
    if str_eq key (prefix <> meeting_id)
    then some (record { key = key; content = raw; base_revision = none; saved_at = 0 })
    else none

unfoldable pub add_draft : Option NoteDraft → List NoteDraft → List NoteDraft
add_draft none drafts = drafts
add_draft (some d) drafts = d ∷ drafts

unfoldable pub collect_drafts : String → List (String × Item) → List NoteDraft
unfolding parse_draft add_draft
collect_drafts meeting_id [] = []
collect_drafts meeting_id ((key, item) ∷ items) =
    let rest = collect_drafts meeting_id items in
    if is_draft_key meeting_id key then add_draft (parse_draft meeting_id key item) rest else rest

-- `drafts.sort((a, b) => b.savedAt - a.savedAt)`, which is stable.
unfoldable pub insert_draft : NoteDraft → List NoteDraft → List NoteDraft
insert_draft d [] = d ∷ []
insert_draft d (x ∷ xs) =
    let rest = insert_draft d xs in if ltb d.saved_at x.saved_at then x ∷ rest else d ∷ x ∷ xs

unfoldable pub sort_drafts : List NoteDraft → List NoteDraft
unfolding insert_draft
sort_drafts [] = []
sort_drafts (d ∷ ds) = insert_draft d (sort_drafts ds)

unfoldable pub read_drafts : String → LocalStorage → List NoteDraft
unfolding collect_drafts sort_drafts
read_drafts meeting_id s =
    if s.available then sort_drafts (collect_drafts meeting_id s.items) else []

unfoldable pub set_item : String → Item → List (String × Item) → List (String × Item)
set_item key item [] = (key, item) ∷ []
set_item key item ((k, i) ∷ items) =
    let rest = set_item key item items in if str_eq k key then (k, item) ∷ items else (k, i) ∷ rest

abbrev pub get_item : String → List (String × Item) → Option Item
get_item key [] = none
get_item key ((k, i) ∷ items) = if str_eq k key then some i else get_item key items

unfoldable pub remove_item : String → List (String × Item) → List (String × Item)
remove_item key [] = []
remove_item key ((k, i) ∷ items) =
    let rest = remove_item key items in if str_eq k key then rest else (k, i) ∷ rest

abbrev pub draft_item : NoteDraft → Item
draft_item d = object_item (some d.content) d.base_revision (some d.saved_at)

unfoldable pub write_draft : NoteDraft → LocalStorage → Bool × LocalStorage
unfolding set_item
write_draft d s =
    if s.accepts
    then (true, record s { items = set_item d.key (draft_item d) s.items })
    else (false, s)

-- Whether the stored item is still the draft that is to be removed.
unfoldable pub is_same_draft : NoteDraft → Option Item → Bool
is_same_draft d none = false
is_same_draft d (some (object_item none base saved)) = false
is_same_draft d (some (object_item (some content) base saved)) =
    str_eq content d.content && or_else saved 0 == d.saved_at
is_same_draft d (some null_item) = false
is_same_draft d (some (text_item raw)) = str_eq raw d.content && 0 == d.saved_at

unfoldable pub remove_draft : NoteDraft → LocalStorage → LocalStorage
unfolding remove_item is_same_draft
remove_draft d s =
    if s.available && is_same_draft d (get_item d.key s.items)
    then record s { items = remove_item d.key s.items }
    else s

abbrev pub item_content : Item → Option String
item_content (object_item content base saved) = content
item_content null_item = none
item_content (text_item raw) = some raw

-- Some key holds the text.
abbrev pub Stored : String → List (String × Item) → Type 0
Stored c [] = ⊥
Stored c ((k, i) ∷ items) = (item_content i ≡ some c) ⊎ Stored c items

pub set_item-Stored :
    (key content : String) (base saved : Option ℕ) (items : List (String × Item))
    → Stored content (set_item key (object_item (some content) base saved) items)
unfolding set_item
set_item-Stored key content base saved [] = inl refl
set_item-Stored key content base saved ((k, i) ∷ items) =
    grind (arith, set_item-Stored key content base saved items)

weaken-All :
    (p : String × Item) (items : List (String × Item)) (ds : List NoteDraft)
    → All (λ d. Stored d.content items) ds
    → All (λ d. Stored d.content (p ∷ items)) ds
weaken-All p items [] h = tt
weaken-All p items (d ∷ ds) (h, hs) = (inr h, weaken-All p items ds hs)

added-All :
    (meeting_id key : String) (item : Item) (items : List (String × Item)) (rest : List NoteDraft)
    → All (λ d. Stored d.content ((key, item) ∷ items)) rest
    → All
        (λ d. Stored d.content ((key, item) ∷ items))
        (add_draft (parse_draft meeting_id key item) rest)
unfolding add_draft parse_draft
added-All meeting_id key (object_item none base saved) items rest h = h
added-All meeting_id key (object_item (some content) base saved) items rest h = (inl refl, h)
added-All meeting_id key null_item items rest h = h
added-All meeting_id key (text_item raw) items rest h = grind arith

collect_drafts-Stored :
    (meeting_id : String) (items : List (String × Item))
    → All (λ d. Stored d.content items) (collect_drafts meeting_id items)
unfolding collect_drafts parse_draft add_draft
collect_drafts-Stored meeting_id [] = tt
collect_drafts-Stored meeting_id ((key, item) ∷ items) =
    let rest =
      weaken-All (key, item) items (collect_drafts meeting_id items)
        (collect_drafts-Stored meeting_id items) in
    elim (Bool-cases (is_draft_key meeting_id key)) [
      | inl e ↦ rw e (added-All meeting_id key item items (collect_drafts meeting_id items) rest)
      | inr e ↦ rw e rest
    ]

insert_draft-All :
    (P : NoteDraft → Type 0) (d : NoteDraft) (ds : List NoteDraft)
    → P d
    → All P ds
    → All P (insert_draft d ds)
unfolding insert_draft
insert_draft-All P d [] p h = (p, tt)
insert_draft-All P d (x ∷ xs) p h = grind (arith, insert_draft-All P d xs p)

sort_drafts-All : (P : NoteDraft → Type 0) (ds : List NoteDraft) → All P ds → All P (sort_drafts ds)
unfolding sort_drafts
sort_drafts-All P [] h = tt
sort_drafts-All P (d ∷ ds) (p, h) = insert_draft-All P d (sort_drafts ds) p (sort_drafts-All P ds h)

-- Every draft that is offered for recovery is the text of some item of the storage.
pub read_drafts-Stored :
    (meeting_id : String) (s : LocalStorage)
    → All (λ d. Stored d.content s.items) (read_drafts meeting_id s)
unfolding read_drafts
read_drafts-Stored meeting_id s =
    grind (arith, sort_drafts-All _ _ (collect_drafts-Stored meeting_id s.items))

get-remove_other :
    (k key : String) (items : List (String × Item))
    → str_eq key k ≡ false
    → get_item k (remove_item key items) ≡ get_item k items
unfolding remove_item
get-remove_other k key [] h = refl
get-remove_other k key ((k2, i) ∷ items) h =
    grind (arith, get-remove_other k key items h, eq_iff k2 key, eq_iff k2 k, eq_iff key k)

abbrev pub item_saved_at : Item → Option ℕ
item_saved_at (object_item content base saved) = saved
item_saved_at null_item = none
item_saved_at (text_item raw) = none

-- The stored item has the text, and the time, where an item without a time counts as of time 0.
abbrev pub HasBackup : String → ℕ → Option Item → Type 0
HasBackup content at none = ⊥
HasBackup content at (some i) = (item_content i ≡ some content) × (or_else (item_saved_at i) 0 ≡ at)

same_draft-HasBackup :
    (d : NoteDraft) (o : Option Item) → is_same_draft d o ≡ true → HasBackup d.content d.saved_at o
unfolding is_same_draft
same_draft-HasBackup d none h = ground arith
same_draft-HasBackup d (some (object_item none base saved)) h = ground arith
same_draft-HasBackup d (some (object_item (some content) base saved)) h =
    grind (arith, h, eq_iff content d.content)
same_draft-HasBackup d (some null_item) h = ground arith
same_draft-HasBackup d (some (text_item raw)) h = grind (arith, h, eq_iff raw d.content)

-- Removing a backup changes no item of another key, and the item under its own key only while that
-- item still has the backup's text and time: a backup that another session has updated stays.
pub remove_draft-keeps :
    (d : NoteDraft) (s : LocalStorage) (k : String)
    → (get_item k (remove_draft d s).items ≡ get_item k s.items)
      ⊎ ((d.key ≡ k) × HasBackup d.content d.saved_at (get_item k s.items))
unfolding remove_draft
remove_draft-keeps d s k = elim (Bool-cases (str_eq d.key k)) [
  | inl e ↦ grind (arith, eq_iff d.key k, same_draft-HasBackup d (get_item d.key s.items))
  | inr e ↦ grind (arith, get-remove_other k d.key s.items e)
]
