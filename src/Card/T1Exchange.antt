-- ===== src/Card/T1Exchange.antt =====
-- csctapi/protocol_t1.c: a command and its response as blocks. The driver (ICC_Async_Transmit and
-- ICC_Async_Receive) is the list of what it does, one round after the other; timings are left out,
-- and there is memory for each block.
pub mod Chain
pub mod Response
pub mod Crash
use oscam_vdr.Base.{
  ℕ, zero, suc, ◌+◌, ◌-◌, ◌%◌, Bool, true, false, Option, none, some, List, [], ◌∷◌, ◌++◌, ltb,
  ◌==◌, nonzero, if◌then◌else◌, get_or, take, drop, length, min, u16, ◌&&◌, ◌||◌,
}
use oscam_vdr.Card.T1Block.{
  T1Block, type_i, new, new_i_block, new_r_block, new_s_block, get_type, get_ns, get_more, get_len,
  get_inf,
}

abbrev pub r_ok : ℕ
r_ok = 0x80

abbrev pub s_resynch_req : ℕ
s_resynch_req = 0xc0

abbrev pub s_resynch_res : ℕ
s_resynch_res = 0xe0

abbrev pub s_ifs_req : ℕ
s_ifs_req = 0xc1

abbrev pub s_ifs_res : ℕ
s_ifs_res = 0xe1

abbrev pub s_wtx_req : ℕ
s_wtx_req = 0xc3

abbrev pub s_wtx_res : ℕ
s_wtx_res = 0xe3

-- `Protocol_T1_ReceiveBlock`: `first` is what receiving four bytes yields, and `rest` what
-- receiving as many more as the third of them says yields, none for an error.
unfoldable pub receive_block : Option (List ℕ) → Option (List ℕ) → Option T1Block
receive_block none rest = none
receive_block (some first) rest =
    let len = get_or first 2 0 in
    if len == 0
    then new true first 4
    else (elim rest [ none ↦ none | some more ↦ new true (first ++ more) (len + 4) ])

-- A block that is received, none for an error, and whether sending the block behind it works.
pub record Round : Type 0 where
  pub received : Option T1Block
  pub sent_ok : Bool

-- What `Protocol_T1_Command` comes to; `rsp_crash` is a read through NULL or behind a block.
pub data Reply : Type 0 where
  rsp_ok : List ℕ → Reply
  rsp_error : Reply
  rsp_crash : Reply

-- The blocks sent, the first first, what is left of the rounds, `reader->ns`, and the response.
pub record Outcome : Type 0 where
  pub sent : List T1Block
  pub rounds : List Round
  pub ns : ℕ
  pub rsp : Reply

-- The block is sent before all that the outcome has.
abbrev pub after : Option T1Block → Outcome → Outcome
after none o = o
after (some b) o = record o { sent = b ∷ o.sent }

abbrev pub failed : List Round → ℕ → Outcome
failed rounds ns = record { sent = []; rounds = rounds; ns = ns; rsp = rsp_error }

abbrev pub crashed : List Round → ℕ → Outcome
crashed rounds ns = record { sent = []; rounds = rounds; ns = ns; rsp = rsp_crash }

abbrev pub answered : List Round → ℕ → List ℕ → Outcome
answered rounds ns rsp = record { sent = []; rounds = rounds; ns = ns; rsp = rsp_ok rsp }

-- `(reader->ns == 1) ? 0:1`
abbrev pub toggle : ℕ → ℕ
toggle ns = if ns == 1 then 0 else 1

-- The bytes that are copied are not there: their pointer is NULL, or they go on behind the block.
abbrev pub lacks_inf : T1Block → Bool
lacks_inf b = nonzero (get_len b) && (ltb b.size 5 || ltb b.size (get_len b + 3))

-- The bytes from the pointer of `T1_Block_GetInf` on, where they are there.
abbrev pub inf_of : T1Block → List ℕ
inf_of b = elim (get_inf b) [ none ↦ [] | some bytes ↦ take (get_len b) bytes ]

-- `counter`, the number of bytes so far, has 16 bits.
abbrev pub grown : List ℕ → List ℕ → List ℕ
grown buffer bytes = take (u16 (length (buffer ++ bytes))) (buffer ++ bytes)

-- A chained I-block, after which the loop goes on with `next`.
abbrev pub chain : Bool → T1Block → List Round → ℕ → Outcome → Outcome
chain sent_ok b rounds ns next =
    after (new_r_block true r_ok ((get_ns b + 1) % 2)) (if sent_ok then next else failed rounds ns)

-- A request for more time: `wtx` is read through the pointer of `T1_Block_GetInf`.
abbrev pub wait_more : Bool → Option (List ℕ) → List Round → ℕ → Outcome → Outcome
wait_more sent_ok none rounds ns next = crashed rounds ns
wait_more sent_ok (some wtx) rounds ns next =
    after (new_s_block true s_wtx_res 1 wtx) (if sent_ok then next else failed rounds ns)

-- The loop that receives the response; the bytes so far are `buffer`.
unfoldable pub respond : List Round → ℕ → List ℕ → Outcome
respond [] ns buffer = failed [] ns
respond (r ∷ rs) ns buffer = elim r.received [
  | none ↦ failed rs ns
  | some b ↦
      let all = grown buffer (inf_of b) in
      let chained = chain r.sent_ok b rs ns (respond rs ns all) in
      let waiting = wait_more r.sent_ok (get_inf b) rs ns (respond rs ns buffer) in
      if get_type b == type_i
      then (if lacks_inf b
          then crashed rs ns
          else if nonzero (get_more b)
          then chained
          else answered rs ns all)
      else if get_type b == s_wtx_req
      then waiting
      else failed rs ns
]

-- The I-block with the next bytes of a command, and whether others follow.
abbrev pub block_of : ℕ → ℕ → List ℕ → Option T1Block
block_of ifsc ns left = new_i_block true (min (length left) ifsc) left ns (ltb ifsc (length left))

-- The command from `left` on, whose first block was sent: the loop that sends the other blocks,
-- and the response.
unfoldable pub send_rest : List Round → ℕ → ℕ → List ℕ → Outcome
send_rest [] ifsc ns left = if ltb ifsc (length left) then failed [] ns else respond [] ns []
send_rest (r ∷ rs) ifsc ns left =
    let left' = drop ifsc left in
    let next = after (block_of ifsc (toggle ns) left') (elim r.sent_ok [
      | true ↦ send_rest rs ifsc (toggle ns) left'
      | false ↦ failed rs (toggle ns)
    ]) in
    if ltb ifsc (length left)
    then (elim r.received [
      | none ↦ failed rs ns
      | some b ↦ if get_type b == r_ok then next else failed rs ns
    ])
    else respond (r ∷ rs) ns []

-- What a request of the reader itself yields when a block came: an empty response, whatever sending
-- yielded. The information of an IFS response is read through its pointer.
abbrev pub taken_reply : ℕ → T1Block → List Round → ℕ → Outcome
taken_reply kind b rounds ns =
    if kind == s_ifs_req && (get_type b == s_ifs_res && ltb b.size 5)
    then crashed rounds ns
    else answered rounds (if kind == s_resynch_req && get_type b == s_resynch_res then 0 else ns) []

unfoldable pub reply_to : ℕ → List Round → ℕ → Outcome
reply_to kind [] ns = failed [] ns
reply_to kind (r ∷ rs) ns = elim r.received [
  | none ↦ failed rs ns
  | some b ↦ taken_reply kind b rs ns
]

-- `Protocol_T1_Command`; `sent_ok` is whether sending the first block works. The response to a
-- request of the reader itself is left as it was, which is [] here.
unfoldable pub t1_command : Bool → List Round → ℕ → ℕ → List ℕ → Outcome
t1_command sent_ok rounds ifsc ns bytes =
    let kind = get_or bytes 1 0 in
    if kind == s_ifs_req
    then after (new_s_block true s_ifs_req 1 (get_or bytes 3 0 ∷ [])) (reply_to kind rounds ns)
    else if kind == s_resynch_req
    then after (new_s_block true s_resynch_req 0 []) (reply_to kind rounds ns)
    else after (block_of ifsc (toggle ns) bytes)
        (if sent_ok then send_rest rounds ifsc (toggle ns) bytes else failed rounds (toggle ns))
