-- ===== src/Cccam/Sids.antt =====
-- module-cccam.c, `sid_eq` to `add_good_sid`. The two linked lists of a card are its lists here.
pub mod Lists
use oscam_vdr.Base.{ℕ, Bool, true, false, List, [], ◌∷◌, ◌++◌, ◌==◌, ◌&&◌, ◌||◌, if◌then◌else◌, any}

-- `struct cc_srvid`; `ecmlen` is 0 when it is not known.
pub record SrvId : Type 0 where
  pub sid : ℕ
  pub ecmlen : ℕ

-- The fields of `struct cc_card` that these functions use.
pub record CardSids : Type 0 where
  pub badsids : List SrvId
  pub goodsids : List SrvId

unfoldable pub sid_eq : SrvId → SrvId → Bool
sid_eq a b = a.sid == b.sid && (a.ecmlen == b.ecmlen || a.ecmlen == 0 || b.ecmlen == 0)

-- The loop that the two tests share.
unfoldable pub has_sid : List SrvId → SrvId → Bool
has_sid [] sought = false
has_sid (s ∷ ss) sought = if sid_eq s sought then true else has_sid ss sought

unfoldable pub is_sid_blocked : CardSids → SrvId → Bool
is_sid_blocked card sought = has_sid card.badsids sought

unfoldable pub is_good_sid : CardSids → SrvId → Bool
is_good_sid card sought = has_sid card.goodsids sought

-- The loop that the two removals share.
unfoldable pub remove_sids : List SrvId → SrvId → List SrvId
remove_sids [] sought = []
remove_sids (s ∷ ss) sought =
    let rest = remove_sids ss sought in if sid_eq s sought then rest else s ∷ rest

unfoldable pub add_sid_block : CardSids → SrvId → CardSids
add_sid_block card s =
    if is_sid_blocked card s then card else record card { badsids = card.badsids ++ (s ∷ []) }

unfoldable pub remove_sid_block : CardSids → SrvId → CardSids
remove_sid_block card s = record card { badsids = remove_sids card.badsids s }

unfoldable pub remove_good_sid : CardSids → SrvId → CardSids
remove_good_sid card s = record card { goodsids = remove_sids card.goodsids s }

unfoldable pub add_good_sid : CardSids → SrvId → CardSids
unfolding remove_sid_block
add_good_sid card s =
    if is_good_sid card s
    then card
    else (let unblocked = remove_sid_block card s in
        record unblocked { goodsids = unblocked.goodsids ++ (s ∷ []) })
