-- ===== src/Tests/Masking.antt =====
-- Redaction of responses, and the mask of tokens.
use agentsecrets.Prelude.{ℕ, ◌≡◌, refl, true, false, [], ◌∷◌, inl, inr}
use agentsecrets.Text.{Str, str, contains, has_prefix}
use agentsecrets.Redaction.{
  Response, redact_response, notice, headers_contain, run_len, rune_len, is_utf8_from,
}
use agentsecrets.Redaction.Cuts.{IsClean}
use agentsecrets.Redaction.Responses.{
  IsHidden, IsAbsent, redact_response_hides, redact_response_needs_full_echo,
}
use agentsecrets.Tests.Fixtures.{secret}

secret-IsClean : IsClean secret
unfolding str contains has_prefix notice
secret-IsClean = record { ne_nil = λ e. cc; no_open = refl; no_close = refl; not_in_notice = refl }

abbrev echo : Str
echo = str "{\"error\": \"bad key sk_live_0123\"}"

abbrev answer : Response
answer = record {
  body = echo;
  headers = (str "Www-Authenticate", secret ∷ []) ∷ [];
  redacted = false;
}

-- The upstream masks the middle of the value.
abbrev masked : Response
masked = record { body = str "bad key sk_live_***3"; headers = []; redacted = false }

abbrev print : ℕ → Str
print n = []

redact_response_hides_example : IsHidden secret (redact_response print (secret ∷ []) answer)
redact_response_hides_example =
    redact_response_hides print (secret ∷ []) secret answer secret-IsClean (inl refl)

masked-IsAbsent : IsAbsent secret masked
unfolding str contains has_prefix headers_contain
masked-IsAbsent = record { from_body = refl; from_headers = refl }

redact_response_needs_full_echo_example : redact_response print (secret ∷ []) masked ≡ masked
redact_response_needs_full_echo_example =
    redact_response_needs_full_echo print (secret ∷ []) masked refl (inr masked-IsAbsent, tt)

-- A rune counts once, whatever its length: behind the masks up to thirty of them are redacted.
euro : run_len 2 (λ c. true) (226 ∷ 130 ∷ 172 ∷ 226 ∷ 130 ∷ 65 ∷ []) ≡ 4
unfolding run_len rune_len
euro = refl

-- A prefix that ends within a rune.
cut : is_utf8_from 0 (65 ∷ 226 ∷ 130 ∷ []) ≡ false
unfolding is_utf8_from rune_len
cut = refl
