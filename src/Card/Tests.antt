-- ===== src/Card/Tests.antt =====
-- Blocks of the protocol T=1 and answers to reset, byte by byte.
use oscam_vdr.Base.{
  ℕ, zero, suc, ◌≡◌, ◌++◌, some, inl, ◌≤◌, ◌<◌, refl, true, false, List, [], ◌∷◌, arith,
}
use oscam_vdr.Card.T1Block.{
  T1Block, type_i, get_type, get_more, get_len, new_i_block, new_r_block, new_s_block,
}
use oscam_vdr.Card.T1Block.Checksum.{IsSound, new_block-IsSound}
use oscam_vdr.Card.T1Exchange.{rsp_crash, s_wtx_req, r_ok, t1_command}
use oscam_vdr.Card.T1Exchange.Chain.{acks}
use oscam_vdr.Card.T1Exchange.Crash.{t1_command_crash}
use oscam_vdr.Card.T1Exchange.Response.{Going}
use oscam_vdr.Card.Atr.{Atr, Parsing, ok, malformed, overrun}
use oscam_vdr.Card.Atr.Values.{get_size, get_number_of_protocols}
use oscam_vdr.Card.Atr.Parse.{
  at, normalise, ib_loop, ib_row, finish, finish_with, fit_history, init_from_array,
}
use oscam_vdr.Card.Atr.Raw.{IsRead}
use oscam_vdr.Card.Atr.Init.{get_raw-init_from_array, init_from_array_overrun}

abbrev command : List ℕ
command = 0 ∷ 0xa4 ∷ 4 ∷ 0 ∷ 0 ∷ []

new_block-IsSound_example :
    IsSound 9 (new_i_block true 5 command 1 false)
    × IsSound 4 (new_r_block true 0x80 1)
    × IsSound 9 (new_s_block true 0x80 5 command)
new_block-IsSound_example = new_block-IsSound 0x80 5 1 1 false command (omega arith)

-- TS, T0 with TB1 and two bytes of history, TB1, the history.
abbrev direct : List ℕ
direct = 0x3b ∷ 0x22 ∷ 0x25 ∷ 0x41 ∷ 0x42 ∷ []

get_raw-init_from_array_example : IsRead (normalise direct 5) (init_from_array direct 5)
get_raw-init_from_array_example =
    get_raw-init_from_array direct 5 (omega arith)
      (omega arith, (omega arith, (omega arith, (omega arith, (omega arith, tt)))))

abbrev parsed : Parsing Atr → ℕ × ℕ
parsed (ok atr) = (get_size atr, get_number_of_protocols atr)
parsed malformed = (0, 0)
parsed overrun = (0, 0)

direct-size : parsed (init_from_array direct 5) ≡ (5, 1)
unfolding init_from_array normalise ib_loop ib_row finish finish_with fit_history
direct-size = refl

-- Eight rows of interface bytes, of which seven have a TD only.
abbrev long : List ℕ
long = 0x3b ∷ 0x80 ∷ 0x80 ∷ 0x80 ∷ 0x80 ∷ 0x80 ∷ 0x80 ∷ 0x80 ∷ 0x10 ∷ 1 ∷ 0 ∷ []

long_rows : (i : ℕ) → 1 ≤ i → i < 8 → at (normalise long 11) i ≡ 0x80
unfolding normalise
long_rows zero h k = absurd (omega arith)
long_rows (suc zero) h k = refl
long_rows (suc (suc zero)) h k = refl
long_rows (suc (suc (suc zero))) h k = refl
long_rows (suc (suc (suc (suc zero)))) h k = refl
long_rows (suc (suc (suc (suc (suc zero))))) h k = refl
long_rows (suc (suc (suc (suc (suc (suc zero)))))) h k = refl
long_rows (suc (suc (suc (suc (suc (suc (suc zero))))))) h k = refl
long_rows (suc (suc (suc (suc (suc (suc (suc (suc i)))))))) h k = absurd (omega arith)

init_from_array_overrun_example : init_from_array long 11 ≡ overrun
unfolding normalise
init_from_array_overrun_example = init_from_array_overrun long 11 long_rows (omega arith)

-- Acknowledgements, and a response of one chained block and another.
abbrev ack : T1Block
ack = record { data_bytes = 0 ∷ 0x80 ∷ 0 ∷ 0x80 ∷ []; size = 4 }

abbrev part : T1Block
part = record { data_bytes = 0 ∷ 0x20 ∷ 1 ∷ 0x61 ∷ 0x40 ∷ []; size = 5 }

abbrev end : T1Block
end = record { data_bytes = 0 ∷ 0 ∷ 2 ∷ 0x90 ∷ 0 ∷ 0x92 ∷ []; size = 6 }

part_goes_on : Going part
unfolding get_type get_more get_len
part_goes_on = inl (omega arith, refl, omega arith)

end_type : (get_type end ≡ type_i) × (get_more end ≡ 0) × (get_type ack ≡ r_ok)
unfolding get_type get_more
end_type = (refl, refl, refl)

-- A request for more time without its byte, behind the first part.
abbrev bare : T1Block
bare = record { data_bytes = 0 ∷ 0xc3 ∷ 0 ∷ 0xc3 ∷ []; size = 4 }

bare_type : get_type bare ≡ s_wtx_req
unfolding get_type
bare_type = refl

t1_command_crash_example :
    (t1_command true
      (acks (ack ∷ ack ∷ [])
        ++ (acks (part ∷ []) ++ (record { received = some bare; sent_ok = true } ∷ [])))
      2
      0
      command).rsp
    ≡ rsp_crash
t1_command_crash_example =
    t1_command_crash (ack ∷ ack ∷ []) (part ∷ []) bare [] true 2 0 command
      (end_type.2, (end_type.2, tt)) (part_goes_on, tt) bare_type (omega arith) (omega arith)
      (omega arith) (omega arith) (omega arith) (omega arith) (omega arith)
