-- ===== src/Aes/Keys.antt =====
-- About the list of AES keys: which key a look-up finds.
use oscam_vdr.Base.{
  ℕ, ◌≡◌, refl, ap, ◌∙◌, true, ◌&&◌, ◌||◌, Option, none, some, List, [], ◌∷◌, ◌==◌, ==_refl,
  if◌then◌else◌, Bool-cases, inl, inr, u16, take,
}
use oscam_vdr.Aes.{
  AesEntry, by_card, append, add_aes_entry, is_for, find_key, present, aes_present, decrypt_with,
  crypt_loop, aes_decrypt_from_list,
}

-- The entry that a look-up finds in a list with one more entry at its end.
abbrev or_last : ℕ → ℕ → ℕ → AesEntry → Option AesEntry → Option AesEntry
or_last caid provid keyid e (some found) = some found
or_last caid provid keyid e none = if is_for caid provid keyid e then some e else none

find_key-append :
    (caid provid keyid : ℕ) (e : AesEntry) (list : List AesEntry)
    → find_key caid provid keyid (append e list)
      ≡ or_last caid provid keyid e (find_key caid provid keyid list)
find_key-append caid provid keyid e [] = refl
find_key-append caid provid keyid e (c ∷ cs) = elim (Bool-cases (is_for caid provid keyid c)) [
  | inl h ↦ rw h refl
  | inr h ↦ rw h (find_key-append caid provid keyid e cs)
]

abbrev entry : ℕ → ℕ → ℕ → List ℕ → AesEntry
entry caid ident keyid key = record {
  plainkey = take 16 key;
  caid = caid;
  ident = ident;
  keyid = u16 keyid;
  key = if by_card key then none else some (take 16 key);
}

present-or_last :
    (caid provid keyid : ℕ) (e : AesEntry) (o : Option AesEntry)
    → present (or_last caid provid keyid e o) ≡ (present o || is_for caid provid keyid e)
present-or_last caid provid keyid e (some c) = refl
present-or_last caid provid keyid e none = elim (Bool-cases (is_for caid provid keyid e)) [
  | inl h ↦ rw h refl
  | inr h ↦ rw h refl
]

decrypt_with-or_last :
    (enc dec : List ℕ → List ℕ → List ℕ) (caid ident keyid n : ℕ) (key buf : List ℕ)
    (o : Option AesEntry)
    → u16 keyid ≡ keyid
    → decrypt_with enc dec (or_last caid ident keyid (entry caid ident keyid key) o) buf n ≡ (
        if present o
        then decrypt_with enc dec o buf n
        else if by_card key
        then (true, buf)
        else (true, crypt_loop (dec (take 16 key)) n n buf))
decrypt_with-or_last enc dec caid ident keyid n key buf (some c) w = refl
decrypt_with-or_last enc dec caid ident keyid n key buf none w =
    rw (w, ==_refl caid, ==_refl ident, ==_refl keyid)
      (elim (Bool-cases (by_card key)) [ inl h ↦ rw h refl | inr h ↦ rw h refl ])

-- After adding a key, it is present, and so is every key that was; a key with other numbers is
-- present only if it was.
pub aes_present-add_aes_entry :
    (list : List AesEntry) (caid ident keyid caid' ident' keyid' : ℕ) (key : List ℕ)
    → aes_present (add_aes_entry caid ident keyid key list) caid' ident' keyid' ≡ (
        aes_present list caid' ident' keyid'
        || (caid == caid' && ident == ident' && u16 keyid == keyid'))
unfolding aes_present add_aes_entry
aes_present-add_aes_entry list caid ident keyid caid' ident' keyid' key =
    let e = entry caid ident keyid key in
    ap present (find_key-append caid' ident' keyid' e list)
    ∙ present-or_last caid' ident' keyid' e (find_key caid' ident' keyid' list)

-- Decrypting under a key that was just added uses it if no key with its numbers was there before;
-- otherwise it uses the one before. A key whose bytes begin with FF FF leaves the buffer as it is.
pub aes_decrypt_from_list-add_aes_entry :
    (enc dec : List ℕ → List ℕ → List ℕ) (list : List AesEntry) (caid ident keyid n : ℕ)
    (key buf : List ℕ)
    → u16 keyid ≡ keyid
    → aes_decrypt_from_list enc dec (add_aes_entry caid ident keyid key list) caid ident keyid buf n
      ≡ (if aes_present list caid ident keyid
          then aes_decrypt_from_list enc dec list caid ident keyid buf n
          else if by_card key
          then (true, buf)
          else (true, crypt_loop (dec (take 16 key)) n n buf))
unfolding aes_present add_aes_entry aes_decrypt_from_list
aes_decrypt_from_list-add_aes_entry enc dec list caid ident keyid n key buf w =
    let e = entry caid ident keyid key in
    ap (λ (o : Option AesEntry). decrypt_with enc dec o buf n)
      (find_key-append caid ident keyid e list)
    ∙ decrypt_with-or_last enc dec caid ident keyid n key buf (find_key caid ident keyid list) w
