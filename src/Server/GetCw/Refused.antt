-- ===== src/Server/GetCw/Refused.antt =====
-- About the requests that `get_cw` refuses.
use oscam_vdr.Base.{ℕ, ◌<◌, ◌≡◌, ◌⊎◌}
use oscam_vdr.Server.{e_notfound, e_99, e_unhandled}

-- What the checks give: no answer yet, or a code that ends the request.
abbrev Settled : ℕ → Type 0
Settled rc = (rc ≡ e_unhandled) ⊎ ((e_notfound < rc) × (rc < e_99))
