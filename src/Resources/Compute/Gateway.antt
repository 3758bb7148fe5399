-- ===== src/Resources/Compute/Gateway.antt =====
-- compute.py: the URLs of the gateway of a compute session.
use copass.Prelude.{
  ℕ, zero, suc, ◌-◌, Bool, true, false, ◌&&◌, Option, some, none, [], ◌∷◌, ◌++◌, eqb, if◌then◌else◌,
}
use copass.Text.{Text, codes}

pub record ComputeGateway : Type 0 where
  pub base_url : Text
  pub url_template : Text

-- The parts of a session that its URLs are made of.
pub record ComputeSession : Type 0 where
  pub session_id : Text
  pub gateway : Option ComputeGateway

unfoldable pub starts_with : Text → Text → Bool
starts_with [] s = true
starts_with (c ∷ t) [] = false
starts_with (c ∷ t) (d ∷ s) = eqb c d && starts_with t s

abbrev pub size : Text → ℕ
size [] = 0
size (c ∷ s) = suc (size s)

-- `s.replace(old, new)`, behind some letters that are still to be skipped
unfoldable pub replace_behind : ℕ → Text → Text → Text → Text
unfolding starts_with
replace_behind skip old new [] = []
replace_behind (suc skip) old new (c ∷ s) = replace_behind skip old new s
replace_behind zero old new (c ∷ s) =
    let kept = replace_behind zero old new s in
    let skipped = replace_behind (size old - 1) old new s in
    if starts_with old (c ∷ s) then new ++ skipped else c ∷ kept

abbrev pub replace : Text → Text → Text → Text
replace old new s = replace_behind zero old new s

-- `proxy_url`; `none` is the `ValueError` of a deployment without a gateway.
unfoldable pub proxy_url : ComputeSession → Text → Text → Option Text
unfolding replace_behind
proxy_url session port path = elim session.gateway [
  | none ↦ none
  | some gw ↦ some (
      replace (codes "{path}") path (
        replace (codes "{port}") port (
          replace (codes "{session_id}") session.session_id
            (replace (codes "{base_url}") gw.base_url gw.url_template))))
]

-- `s[n:]`
abbrev pub drop : ℕ → Text → Text
drop zero s = s
drop (suc n) [] = []
drop (suc n) (c ∷ s) = drop n s

unfoldable pub to_websocket : Text → Text
unfolding starts_with
to_websocket url =
    if starts_with (codes "https://") url
    then codes "wss://" ++ drop 8 url
    else if starts_with (codes "http://") url
    then codes "ws://" ++ drop 7 url
    else url

-- `websocket_url`
unfoldable pub websocket_url : ComputeSession → Text → Text → Option Text
unfolding proxy_url to_websocket
websocket_url session port path = elim (proxy_url session port path) [
  | none ↦ none
  | some url ↦ some (to_websocket url)
]
