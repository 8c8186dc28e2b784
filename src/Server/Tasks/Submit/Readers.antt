-- ===== src/Server/Tasks/Submit/Readers.antt =====
-- About the readers of a request: which of them are asked first.
use oscam_vdr.Base.{
  ℕ, ◌≡◌, refl, sym, ap, ap₂, ◌∙◌, Bool, true, false, Option, none, some, List, [], ◌∷◌, ◌++◌, ◌==◌,
  All, if◌then◌else◌, Bool-cases, inl, inr, arith, ◌&&◌, not,
}
use oscam_vdr.Server.{Request}
use oscam_vdr.Server.Tasks.Pending.{primaries}
use oscam_vdr.Server.Tasks.Submit.{first_fallback, match_readers, with_readers}

-- The first of two lists that has an element.
abbrev pub or_others : List ℕ → List ℕ → List ℕ
or_others [] fs = fs
or_others (p ∷ ps) fs = p ∷ ps

module _ (matches is_fallback : ℕ → Bool) where
  -- The readers that match and are no fallbacks, the last first.
  abbrev pub normal : List ℕ → List ℕ → List ℕ
  normal [] found = found
  normal (r ∷ rs) found = normal rs (if matches r && not (is_fallback r) then r ∷ found else found)

  -- The fallbacks that match, the first first.
  abbrev pub fallbacks : List ℕ → List ℕ → List ℕ
  fallbacks [] found = found
  fallbacks (r ∷ rs) found =
      fallbacks rs (if matches r && is_fallback r then found ++ (r ∷ []) else found)

  abbrev head : List ℕ → Option ℕ
  head [] = none
  head (r ∷ rs) = some r

  head-append : (fs : List ℕ) (r : ℕ) → head (fs ++ (r ∷ [])) ≡ first_fallback (head fs) r
  head-append [] r = refl
  head-append (f ∷ fs) r = refl

  append_assoc : (ps fs gs : List ℕ) → (ps ++ fs) ++ gs ≡ ps ++ (fs ++ gs)
  append_assoc [] fs gs = refl
  append_assoc (p ∷ ps) fs gs = rw (append_assoc ps fs gs) refl

  match_readers_lem :
      (rs ps fs : List ℕ)
      → match_readers matches is_fallback rs (ps ++ fs) (head fs)
        ≡ (normal rs ps ++ fallbacks rs fs, head (fallbacks rs fs))
  unfolding match_readers
  match_readers_lem [] ps fs = refl
  match_readers_lem (r ∷ rs) ps fs = elim (Bool-cases (matches r)) [
    | inr n ↦ rw (n, match_readers) (match_readers_lem rs ps fs)
    | inl y ↦ elim (Bool-cases (is_fallback r)) [
      | inr m ↦ rw (y, m, match_readers) (match_readers_lem rs (r ∷ ps) fs)
      | inl m ↦
          rw (y, m, match_readers)
            (ap₂ (match_readers matches is_fallback rs) (append_assoc ps fs (r ∷ []))
                (sym (head-append fs r))
              ∙ match_readers_lem rs ps (fs ++ (r ∷ [])))
    ]
  ]

  normal-All :
      (rs ps : List ℕ)
      → All (λ r. is_fallback r ≡ false) ps
      → All (λ r. is_fallback r ≡ false) (normal rs ps)
  normal-All [] ps h = h
  normal-All (r ∷ rs) ps h = elim (Bool-cases (matches r && not (is_fallback r))) [
    | inl y ↦ rw y (normal-All rs (r ∷ ps) (ground arith, h))
    | inr n ↦ rw n (normal-All rs ps h)
  ]

  All-append :
      (fs : List ℕ) (r : ℕ)
      → All (λ f. is_fallback f ≡ true) fs
      → is_fallback r ≡ true
      → All (λ f. is_fallback f ≡ true) (fs ++ (r ∷ []))
  All-append [] r h e = (e, tt)
  All-append (f ∷ fs) r h e = (h.0, All-append fs r h.1 e)

  fallbacks-All :
      (rs fs : List ℕ)
      → All (λ f. is_fallback f ≡ true) fs
      → All (λ f. is_fallback f ≡ true) (fallbacks rs fs)
  fallbacks-All [] fs h = h
  fallbacks-All (r ∷ rs) fs h = elim (Bool-cases (matches r && is_fallback r)) [
    | inl y ↦ rw y (fallbacks-All rs (fs ++ (r ∷ [])) (All-append fs r h (ground arith)))
    | inr n ↦ rw n (fallbacks-All rs fs h)
  ]

  differ_from : (p f : ℕ) → is_fallback p ≡ false → is_fallback f ≡ true → (p == f) ≡ false
  differ_from p f hp hf = elim (Bool-cases (p == f)) [
    | inr n ↦ n
    | inl y ↦
        let e : p ≡ f = ground arith in
        absurd (let z : true ≡ false = sym hf ∙ ap is_fallback (sym e) ∙ hp in cc)
  ]

  primaries-none : (ps : List ℕ) → primaries none ps ≡ ps
  unfolding primaries
  primaries-none [] = refl
  primaries-none (p ∷ ps) = rw (primaries-none ps) refl

  primaries_nil : (f : Option ℕ) → primaries f [] ≡ []
  unfolding primaries
  primaries_nil f = refl

  append_nil : (ps : List ℕ) → ps ++ [] ≡ ps
  append_nil [] = refl
  append_nil (p ∷ ps) = rw (append_nil ps) refl

  primaries_split :
      (ps fs : List ℕ)
      → All (λ r. is_fallback r ≡ false) ps
      → All (λ r. is_fallback r ≡ true) fs
      → primaries (head fs) (ps ++ fs) ≡ ps
  unfolding primaries
  primaries_split ps [] h k = primaries-none (ps ++ []) ∙ append_nil ps
  primaries_split [] (f ∷ fs) h k = let e : (f == f) ≡ true = ground arith in rw e refl
  primaries_split (p ∷ ps) (f ∷ fs) h k =
      rw (differ_from p f h.0 k.0, primaries_split ps (f ∷ fs) h.1 k) refl

  request_lem :
      (er : Request) (rs ps fs : List ℕ)
      → (match_readers matches is_fallback rs [] none).0 ≡ ps ++ fs
      → (match_readers matches is_fallback rs [] none).1 ≡ head fs
      → All (λ r. is_fallback r ≡ false) ps
      → All (λ r. is_fallback r ≡ true) fs
      → ((with_readers matches is_fallback rs er).matching_rdr ≡ ps ++ fs)
        × (primaries (with_readers matches is_fallback rs er).fallback (ps ++ fs) ≡ or_others ps fs)
  unfolding with_readers
  request_lem er rs [] [] m n h k = rw (m, with_readers) (refl, primaries_nil _)
  request_lem er rs [] (f ∷ fs) m n h k =
      let e : (f == f) ≡ true = ground arith in
      rw (m, n, e, with_readers) (refl, primaries-none (f ∷ fs))
  request_lem er rs (p ∷ ps) [] m n h k =
      rw (m, n, with_readers) (refl, primaries_split (p ∷ ps) [] h k)
  request_lem er rs (p ∷ ps) (f ∷ fs) m n h k =
      let e = differ_from p f h.0 k.0 in
      rw (m, n, e, with_readers) (refl, primaries_split (p ∷ ps) (f ∷ fs) h k)

  -- The readers of a request are those that match, the fallbacks behind the others; and those that
  -- are asked first are all that match and are no fallbacks, or else all that match.
  pub with_readers-primaries :
      (er : Request) (rs : List ℕ)
      → ((with_readers matches is_fallback rs er).matching_rdr ≡ normal rs [] ++ fallbacks rs [])
        × (primaries
              (with_readers matches is_fallback rs er).fallback
              (with_readers matches is_fallback rs er).matching_rdr
            ≡ or_others (normal rs []) (fallbacks rs []))
  with_readers-primaries er rs =
      let (a, b) =
        request_lem er rs (normal rs []) (fallbacks rs [])
          (ap (λ t. t.0) (match_readers_lem rs [] [])) (ap (λ t. t.1) (match_readers_lem rs [] []))
          (normal-All rs [] tt) (fallbacks-All rs [] tt) in
      (a, ap (primaries (with_readers matches is_fallback rs er).fallback) a ∙ b)
