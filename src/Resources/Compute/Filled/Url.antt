-- ===== src/Resources/Compute/Filled/Url.antt =====
-- compute.py: the URL of a port, by one replacement after the other.
use copass.Prelude.{◌≡◌, refl, ap, ◌∙◌, some, List, [], ◌∷◌, ◌++◌}
use copass.Resources.Compute.Gateway.{replace, proxy_url}
use copass.Text.{Text}
use copass.Resources.Compute.Filled.{
  base_url, session_id, port, path, name, Piece, plain, hole, render, filled, parts, IsPlain,
  AllPlain,
}
use copass.Resources.Compute.Filled.Replace.{fill, fill-AllPlain, replace-render}

render-fills :
    (b s n p : Text) (ps : List Piece)
    → render (fill path p (fill port n (fill session_id s (fill base_url b ps))))
      ≡ filled (parts b s n p) ps
render-fills b s n p [] = refl
render-fills b s n p (plain t ∷ ps) = ap (λ l. t ++ l) (render-fills b s n p ps)
render-fills b s n p (hole base_url ∷ ps) = ap (λ l. b ++ l) (render-fills b s n p ps)
render-fills b s n p (hole session_id ∷ ps) = ap (λ l. s ++ l) (render-fills b s n p ps)
render-fills b s n p (hole port ∷ ps) = ap (λ l. n ++ l) (render-fills b s n p ps)
render-fills b s n p (hole path ∷ ps) = ap (λ l. p ++ l) (render-fills b s n p ps)

-- The URL of a port fills all holes of the template at once, although the code replaces one name after
-- the other: the texts between the holes, the base URL, the id of the session and the number of the
-- port have no opening brace in them, and the path may be any text.
pub proxy_url-filled :
    (s b n p : Text) (ps : List Piece)
    → AllPlain ps
    → IsPlain b
    → IsPlain s
    → IsPlain n
    → proxy_url
        (record {
          session_id = s;
          gateway = some (record { base_url = b; url_template = render ps });
        })
        n
        p
      ≡ some (filled (parts b s n p) ps)
unfolding proxy_url
proxy_url-filled s b n p ps k kb ks kn =
    let based = fill base_url b ps in
    let named = fill session_id s based in
    let one = fill-AllPlain base_url b ps kb k in
    let two = fill-AllPlain session_id s based ks one in
    let three = fill-AllPlain port n named kn two in
    ap some (
      ap (λ t. replace (name path) p (replace (name port) n (replace (name session_id) s t)))
        (replace-render base_url b ps k)
      ∙ ap (λ t. replace (name path) p (replace (name port) n t))
          (replace-render session_id s based one)
      ∙ ap (replace (name path) p) (replace-render port n named two)
      ∙ replace-render path p (fill port n named) three
      ∙ render-fills b s n p ps)
