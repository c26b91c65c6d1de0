-- ===== src/Identity/Masking.antt =====
-- What a masked token tells.
use agentsecrets.Prelude.{◌-◌, ◌<◌, ◌≡◌, false, arith, length, take, drop}
use agentsecrets.Text.{Str, str, has_prefix}
use agentsecrets.Identity.{mask_token}

-- Tokens of more than ten bytes that agree in the first six and the last four, and are no database
-- IDs, have one mask: it tells nothing else of them.
mask_token_hides :
    (t u : Str)
    → has_prefix t (str "agt_") ≡ false
    → has_prefix u (str "agt_") ≡ false
    → 10 < length t
    → 10 < length u
    → take 6 t ≡ take 6 u
    → drop (length t - 4) t ≡ drop (length u - 4) u
    → mask_token t ≡ mask_token u
unfolding mask_token
mask_token_hides t u a b p q h k = ground arith
