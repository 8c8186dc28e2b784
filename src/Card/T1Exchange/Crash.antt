-- ===== src/Card/T1Exchange/Crash.antt =====
-- About a request for more time that has no byte.
use oscam_vdr.Base.{
  ℕ, ◌+◌, ◌*◌, ◌≤◌, ◌<◌, ◌≡◌, ◌≢◌, refl, ◌∙◌, Bool, true, false, some, List, [], ◌∷◌, ◌++◌, ltb,
  nonzero, get_or, length, All, inl, inr, arith,
}
use oscam_vdr.Card.T1Block.{T1Block, get_type, get_more, get_inf}
use oscam_vdr.Card.T1Exchange.{
  r_ok, rsp_crash, s_wtx_req, Round, respond, t1_command, s_ifs_req, s_resynch_req, grown, inf_of,
}
use oscam_vdr.Card.T1Exchange.Chain.{acks, toggles, t1_command-Carries}
use oscam_vdr.Card.T1Exchange.Response.{Going, whole, rsp-after}

respond-crash :
    (going : List T1Block) (b : T1Block) (rest : List Round) (ns : ℕ) (buffer : List ℕ) (ok : Bool)
    → All Going going
    → get_type b ≡ s_wtx_req
    → b.size < 5
    → (respond (acks going ++ (record { received = some b; sent_ok = ok } ∷ rest)) ns buffer).rsp
      ≡ rsp_crash
unfolding respond get_inf
respond-crash [] b rest ns buffer ok a t s =
    let short : ltb b.size 5 ≡ true = ground arith in rw (t, short) refl
respond-crash (c ∷ cs) b rest ns buffer ok a t s = elim a.0 [
  | inl (v, k, n) ↦
      let go_on : nonzero (get_more c) ≡ true = ground arith in
      rw (k, whole c v, go_on)
        (rsp-after _ _ ∙ respond-crash cs b rest ns (grown buffer (inf_of c)) ok a.1 t s)
  | inr (k, long) ↦
      let has_byte : ltb c.size 5 ≡ false = ground arith in
      rw (k, has_byte) (rsp-after _ _ ∙ respond-crash cs b rest ns buffer ok a.1 t s)
]

-- A card can crash the program, where sending works: however many blocks of a command it
-- acknowledges, and whatever whole chained blocks and requests for more time with their byte it
-- sends then, a request for more time of four bytes is read through NULL.
pub t1_command_crash :
    (acked going : List T1Block) (b : T1Block) (rest : List Round) (ok : Bool) (ifsc ns : ℕ)
    (bytes : List ℕ)
    → All (λ (c : T1Block). get_type c ≡ r_ok) acked
    → All Going going
    → get_type b ≡ s_wtx_req
    → b.size < 5
    → 0 < ifsc
    → ifsc < 256
    → ifsc * length acked < length bytes
    → length bytes ≤ ifsc * (length acked + 1)
    → get_or bytes 1 0 ≢ s_ifs_req
    → get_or bytes 1 0 ≢ s_resynch_req
    → (t1_command true
        (acks acked ++ (acks going ++ (record { received = some b; sent_ok = ok } ∷ rest)))
        ifsc
        ns
        bytes).rsp
      ≡ rsp_crash
t1_command_crash acked going b rest ok ifsc ns bytes a g t s i j k l u v =
    let replies = acks going ++ (record { received = some b; sent_ok = ok } ∷ rest) in
    let (blocks, p, q, r) = t1_command-Carries acked replies ifsc ns bytes a i j k l u v in
    r ∙ respond-crash going b rest (toggles (length acked + 1) ns) [] ok g t s
