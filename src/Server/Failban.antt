-- ===== src/Server/Failban.antt =====
-- oscam.c, `cs_check_v`: the addresses that have violated the rules, and are banned for a time.
-- `cfg.v_list` is the list of the entries, empty before it is made; `malloc` is taken to succeed.
use oscam_vdr.Base.{
  ℕ, suc, ◌+◌, ◌-◌, ◌*◌, ◌<◌, ◌≡◌, ◌≢◌, refl, sym, ◌∙◌, Bool, true, false, ◌&&◌, ◌||◌, not, List,
  [], ◌∷◌, ◌++◌, ◌==◌, ltb, leb, if◌then◌else◌, Exists, Bool-cases, inl, inr, arith, ◌↔◌,
}

-- `V_BAN`
pub record VBan : Type 0 where
  pub v_count : ℕ
  pub v_ip : ℕ
  pub v_port : ℕ
  pub v_time : ℕ

abbrev pub is_of : ℕ → ℕ → VBan → Bool
is_of ip port e = (ip == e.v_ip) && (port == e.v_port)

-- The entry after a round that does not remove it.
abbrev pub visited : ℕ → ℕ → ℕ → Bool → VBan → VBan
visited failbancount ip port add e =
    if is_of ip port e && (not add && ltb e.v_count failbancount)
    then record e { v_count = suc e.v_count }
    else e

-- The loop: what stays, and whether the address is there.
unfoldable pub ban_loop : ℕ → ℕ → ℕ → ℕ → ℕ → Bool → List VBan → List VBan × Bool
ban_loop now ftime failbancount ip port add [] = ([], false)
ban_loop now ftime failbancount ip port add (e ∷ es) =
    let rest = ban_loop now ftime failbancount ip port add es in
    if leb ftime (now - e.v_time)
    then rest
    else (visited failbancount ip port add e ∷ rest.0, is_of ip port e || rest.1)

unfoldable pub cs_check_v : ℕ → ℕ → ℕ → ℕ → ℕ → Bool → List VBan → List VBan × Bool
cs_check_v failbantime failbancount now ip port add bans =
    if failbantime == 0
    then (bans, false)
    else (let r = ban_loop now (failbantime * 60) failbancount ip port add bans in
        if add && not r.1
        then (r.0 ++ (record { v_count = 1; v_ip = ip; v_port = port; v_time = now } ∷ []), r.1)
        else r)

abbrev pub cs_check_violation : ℕ → ℕ → ℕ → ℕ → ℕ → List VBan → List VBan × Bool
cs_check_violation failbantime failbancount now ip port =
    cs_check_v failbantime failbancount now ip port false

abbrev pub cs_add_violation : ℕ → ℕ → ℕ → ℕ → ℕ → List VBan → List VBan
cs_add_violation failbantime failbancount now ip port bans =
    (cs_check_v failbantime failbancount now ip port true bans).0

-- An entry of the address, in time.
abbrev pub Bans : ℕ → ℕ → ℕ → ℕ → VBan → Type 0
Bans now ftime ip port e = (e.v_ip ≡ ip) × (e.v_port ≡ port) × (now - e.v_time < ftime)

ban_loop-Bans :
    (now ftime failbancount ip port : ℕ) (add : Bool) (es : List VBan)
    → (ban_loop now ftime failbancount ip port add es).1 ≡ true
    → Exists (Bans now ftime ip port) es
unfolding ban_loop
ban_loop-Bans now ftime n ip port add [] h = absurd (ground arith)
ban_loop-Bans now ftime n ip port add (e ∷ es) h = elim (Bool-cases (leb ftime (now - e.v_time))) [
  | inl o ↦ inr (ban_loop-Bans now ftime n ip port add es (rw (o, ban_loop) at h))
  | inr o ↦ elim (Bool-cases (is_of ip port e)) [
    | inl y ↦ inl (ground arith)
    | inr y ↦ inr (ban_loop-Bans now ftime n ip port add es (rw (o, y, ban_loop) at h))
  ]
]

ban_loop-Finds :
    (now ftime failbancount ip port : ℕ) (add : Bool) (es : List VBan)
    → Exists (Bans now ftime ip port) es
    → (ban_loop now ftime failbancount ip port add es).1 ≡ true
unfolding ban_loop
ban_loop-Finds now ftime n ip port add [] h = elim h [ ]
ban_loop-Finds now ftime n ip port add (e ∷ es) h = elim (Bool-cases (leb ftime (now - e.v_time))) [
  | inl o ↦ elim h [
    | inl b ↦ absurd (ground (arith, b.2))
    | inr r ↦ rw (o, ban_loop) (ban_loop-Finds now ftime n ip port add es r)
  ]
  | inr o ↦ elim (Bool-cases (is_of ip port e)) [
    | inl y ↦ rw (o, y, ban_loop) refl
    | inr y ↦ elim h [
      | inl b ↦ absurd (ground (arith, b.0, b.1))
      | inr r ↦ rw (o, y, ban_loop) (ban_loop-Finds now ftime n ip port add es r)
    ]
  ]
]

Exists-append : (P : VBan → Type 0) (es : List VBan) (e : VBan) → P e → Exists P (es ++ (e ∷ []))
Exists-append P [] e h = inl h
Exists-append P (x ∷ xs) e h = inr (Exists-append P xs e h)

cs_check_v-ban_loop :
    (failbantime failbancount now ip port : ℕ) (add : Bool) (bans : List VBan)
    → failbantime ≢ 0
    → (cs_check_v failbantime failbancount now ip port add bans).1
      ≡ (ban_loop now (failbantime * 60) failbancount ip port add bans).1
unfolding cs_check_v
cs_check_v-ban_loop time n now ip port add bans h =
    let on : (time == 0) ≡ false = ground arith in
    elim (Bool-cases (add && not (ban_loop now (time * 60) n ip port add bans).1)) [
      | inl e ↦ rw (on, e, cs_check_v) refl
      | inr e ↦ rw (on, e, cs_check_v) refl
    ]

-- While bans are on, an address is reported exactly when there is an entry of it in time, with any
-- count.
pub cs_check_v-Bans :
    (failbantime failbancount now ip port : ℕ) (add : Bool) (bans : List VBan)
    → failbantime ≢ 0
    → ((cs_check_v failbantime failbancount now ip port add bans).1 ≡ true)
      ↔ Exists (Bans now (failbantime * 60) ip port) bans
unfolding cs_check_v
cs_check_v-Bans time n now ip port add bans h =
    let e = cs_check_v-ban_loop time n now ip port add bans h in
    (
      λ y. ban_loop-Bans now (time * 60) n ip port add bans (rw e at y),
      λ y. e ∙ ban_loop-Finds now (time * 60) n ip port add bans y,
    )

-- An address that was not reported, and is added, is reported until the time of the ban is over.
pub cs_check_violation-cs_add_violation :
    (failbantime failbancount now later ip port : ℕ) (bans : List VBan)
    → failbantime ≢ 0
    → (cs_check_violation failbantime failbancount now ip port bans).1 ≡ false
    → later < now + failbantime * 60
    → (cs_check_violation failbantime failbancount later ip port
        (cs_add_violation failbantime failbancount now ip port bans)).1
      ≡ true
unfolding cs_check_v
cs_check_violation-cs_add_violation time n now later ip port bans h absent l =
    let on : (time == 0) ≡ false = ground arith in
    let e = sym (cs_check_v-ban_loop time n now ip port false bans h) ∙ absent in
    elim (Bool-cases (ban_loop now (time * 60) n ip port true bans).1) [
      | inl y ↦ absurd (
          let z =
            ban_loop-Finds now (time * 60) n ip port false bans
              (ban_loop-Bans now (time * 60) n ip port true bans y) in
          ground arith)
      | inr y ↦
          let new : VBan = record { v_count = 1; v_ip = ip; v_port = port; v_time = now } in
          cs_check_v-ban_loop time n later ip port false (cs_add_violation time n now ip port bans)
            h
          ∙ ban_loop-Finds later (time * 60) n ip port false
              (cs_add_violation time n now ip port bans)
              (rw (cs_add_violation, on, y, cs_check_v)
                (Exists-append (Bans later (time * 60) ip port) _ new (refl, refl, omega arith)))
    ]
