-- ===== src/Dirs/Climbing.antt =====
-- The paths of src-tauri/src/dirs.rs that lead back up.
use alayaface.Prelude.{
  ◌≡◌, refl, ap, ◌∙◌, Bool, true, false, not, ◌&&◌, ◌||◌, List, [], ◌∷◌, ◌++◌, append_assoc, Text,
  codes, text_eq, is_empty, any, if◌then◌else◌, ok, arith,
}
use alayaface.Chars.{trim, split_on, is_whitespace}
use alayaface.Dirs.Names.{sanitize_dir_component, safe_path_component}
use alayaface.Dirs.Paths.{FilePath, normal_parts, join, resolve_origin_session_dir, session_path}
use alayaface.Dirs.Joining.{nested_parts, sanitized, safe_plans}
use alayaface.Dirs.Containment.{bare_origin, origin_bare}

-- `..` and the component before it cancel, from the right.
unfoldable pub cancel : Text → List Text → List Text
cancel w [] = w ∷ []
cancel w (v ∷ vs) =
    if text_eq v (codes "..") && not (text_eq w (codes "..")) then vs else w ∷ v ∷ vs

-- where a path leads, if none of its components is a link
unfoldable pub resolved : List Text → List Text
unfolding cancel
resolved [] = []
resolved (w ∷ ws) = cancel w (resolved ws)

unfoldable pub is_up : Text → Bool
is_up w = text_eq w (codes "..")

cancel-plain : (w : Text) (ws : List Text) → any is_up ws ≡ false → cancel w ws ≡ w ∷ ws
unfolding cancel is_up
cancel-plain w [] h = refl
cancel-plain w (v ∷ vs) h = ground arith

or_false : (a b : Bool) → (a || b) ≡ false → (a ≡ false) × (b ≡ false)
or_false false b h = (refl, h)
or_false true b h = cc

not_up-append :
    (xs ys : List Text) → any is_up xs ≡ false → any is_up ys ≡ false → any is_up (xs ++ ys) ≡ false
not_up-append [] ys hx hy = hy
not_up-append (x ∷ xs) ys hx hy = ground (arith, not_up-append xs ys)

resolved-append :
    (xs ys zs : List Text)
    → any is_up xs ≡ false
    → any is_up zs ≡ false
    → resolved ys ≡ zs
    → resolved (xs ++ ys) ≡ xs ++ zs
unfolding resolved
resolved-append [] ys zs hx hz e = e
resolved-append (x ∷ xs) ys zs hx hz e =
    let (_, tail) = or_false (is_up x) (any is_up xs) hx in
    ap (cancel x) (resolved-append xs ys zs tail hz e)
    ∙ cancel-plain x (xs ++ zs) (not_up-append xs zs tail hz)

safe-not_up : (s : Text) → safe_path_component s ≡ true → is_up s ≡ false
unfolding safe_path_component is_up
safe-not_up s h = ground arith

nested_parts-not_up :
    (plan_id node_id session_id : Text)
    → safe_path_component session_id ≡ true
    → any is_up (nested_parts plan_id node_id session_id) ≡ false
nested_parts-not_up plan_id node_id session_id safe =
    rw
      (
        safe-not_up (codes "plans") safe_plans,
        safe-not_up (sanitize_dir_component plan_id) (sanitized plan_id),
        safe-not_up (sanitize_dir_component node_id) (sanitized node_id),
        safe-not_up session_id safe,
      )
      refl

resolved_id : (ws : List Text) → any is_up ws ≡ false → resolved ws ≡ ws
unfolding resolved
resolved_id [] h = refl
resolved_id (w ∷ ws) h =
    let (_, tail) = or_false (is_up w) (any is_up ws) h in
    ap (cancel w) (resolved_id ws tail) ∙ cancel-plain w ws tail

cancel-up : (w : Text) (ws : List Text) → is_up w ≡ false → cancel w (codes ".." ∷ ws) ≡ ws
unfolding cancel is_up text_eq
cancel-up w ws h = rw (cancel, h) refl

over_one :
    (ns : List Text) (top : Text)
    → is_up top ≡ false
    → any is_up ns ≡ false
    → resolved (top ∷ codes ".." ∷ ns) ≡ ns
unfolding resolved
over_one ns top ht hn =
    ap (cancel top) (ap (cancel (codes "..")) (resolved_id ns hn) ∙ cancel-plain (codes "..") ns hn)
    ∙ cancel-up top ns ht

up_over :
    (up ns : List Text) (top : Text)
    → any is_up up ≡ false
    → is_up top ≡ false
    → any is_up ns ≡ false
    → resolved ((up ++ top ∷ []) ++ codes ".." ∷ ns) ≡ up ++ ns
up_over up ns top hu ht hn =
    rw (append_assoc up (top ∷ []) (codes ".." ∷ ns))
      (resolved-append up (top ∷ codes ".." ∷ ns) ns hu hn (over_one ns top ht hn))

climbed_dir :
    (root : FilePath)
    → root.is_absolute ≡ true
    → resolve_origin_session_dir root (codes "..")
      ≡ record { is_absolute = true; parts = root.parts ++ codes ".." ∷ [] }
unfolding join trim normal_parts split_on text_eq is_whitespace
climbed_dir root abs =
    origin_bare root (codes "..") (codes "..") refl refl refl refl ∙ rw (join, abs) refl

-- The origin `..` leads out of the sessions directory: on a nonblank plan and a safe session id,
-- `session_path` accepts a path that, without links, is `plans` and the rest beside the (absolute)
-- sessions directory, not below it.
pub session_path-climbs :
    (root : FilePath) (up : List Text) (top plan_id node_id session_id : Text)
    → root.is_absolute ≡ true
    → root.parts ≡ up ++ top ∷ []
    → any is_up up ≡ false
    → is_up top ≡ false
    → safe_path_component session_id ≡ true
    → is_empty (trim plan_id) ≡ false
    → (path : FilePath) × (session_path root (codes "..") plan_id node_id session_id ≡ ok path)
      × (resolved path.parts ≡ up ++ nested_parts plan_id node_id session_id)
session_path-climbs root up top plan_id node_id session_id abs at hu ht safe nested = (
  record {
    is_absolute = true;
    parts = root.parts ++ codes ".." ∷ nested_parts plan_id node_id session_id;
  },
  bare_origin root (codes "..") (codes "..") plan_id node_id session_id abs (climbed_dir root abs)
      safe nested,
  rw at (
      up_over up (nested_parts plan_id node_id session_id) top hu ht
        (nested_parts-not_up plan_id node_id session_id safe)),
)
