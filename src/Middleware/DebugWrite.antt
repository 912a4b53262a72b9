-- ===== src/Middleware/DebugWrite.antt =====
-- `DebugWriteHeader` of pkg/middleware/debugwrite.go.
use lamdis_core.Prelude.{
  ℕ, ◌≡◌, refl, Bool, true, false, not, ◌&&◌, ◌||◌, List, [], ◌∷◌, ◌++◌, if◌then◌else◌, null,
}
use lamdis_core.Text.{Text, codes, has_prefix, to_lower}

-- A call that a handler makes of its response writer, and equally one that reaches the server.
pub data Call : Type 0 where
  header : ℕ → Call
  body : Text → Call

-- `dwrapper`, with the calls that reached the wrapped writer, the oldest first.
pub record Wrapper : Type 0 where
  pub wrote : Bool
  pub code : ℕ
  pub calls : List Call

-- Whether DEBUG_DOUBLE_WRITE switches the wrapper on.
unfoldable pub is_enabled : Text → Bool
unfolding to_lower has_prefix
is_enabled value =
    let v = to_lower value in
    not (null v)
    && (has_prefix (codes "1") v || has_prefix (codes "t") v || has_prefix (codes "y") v)

unfoldable pub write_header : ℕ → Wrapper → Wrapper
write_header code d =
    if d.wrote then d else record { wrote = true; code = code; calls = d.calls ++ header code ∷ [] }

pass_body : Text → Wrapper → Wrapper
pass_body b d = record { wrote = d.wrote; code = d.code; calls = d.calls ++ body b ∷ [] }

unfoldable pub write : Text → Wrapper → Wrapper
unfolding pass_body write_header
write b d = if d.wrote then pass_body b d else pass_body b (write_header 200 d)

unfoldable pub handle : Call → Wrapper → Wrapper
unfolding write write_header
handle (header code) d = write_header code d
handle (body b) d = write b d

-- A handler that makes the calls in this order.
unfoldable pub serve : List Call → Wrapper → Wrapper
unfolding handle
serve [] d = d
serve (c ∷ cs) d = serve cs (handle c d)

abbrev pub new_wrapper : Wrapper
new_wrapper = record { wrote = false; code = 0; calls = [] }

-- The body calls among `cs`.
abbrev pub bodies : List Call → List Call
bodies [] = []
bodies (header n ∷ cs) = bodies cs
bodies (body b ∷ cs) = body b ∷ bodies cs

-- What should reach the server: the first status, 200 where the handler starts with the body.
abbrev pub first_status : List Call → List Call
first_status [] = []
first_status (header n ∷ cs) = header n ∷ []
first_status (body b ∷ cs) = header 200 ∷ []

append_nil : (xs : List Call) → xs ++ [] ≡ xs
append_nil [] = refl
append_nil (x ∷ xs) = rw (append_nil xs) refl

append_cons : (xs : List Call) (c : Call) (ys : List Call) → (xs ++ c ∷ []) ++ ys ≡ xs ++ c ∷ ys
append_cons [] c ys = refl
append_cons (x ∷ xs) c ys = rw (append_cons xs c ys) refl

serve_wrote :
    (cs : List Call) (code : ℕ) (calls : List Call)
    → (serve cs (record { wrote = true; code = code; calls = calls })).calls ≡ calls ++ bodies cs
unfolding serve handle write write_header pass_body
serve_wrote [] code calls = sym_nil calls
  where
    sym_nil : (xs : List Call) → xs ≡ xs ++ []
    sym_nil xs = rw (append_nil xs) refl
serve_wrote (header n ∷ cs) code calls = serve_wrote cs code calls
serve_wrote (body b ∷ cs) code calls =
    rw (serve_wrote cs code (calls ++ body b ∷ [])) (append_cons calls (body b) (bodies cs))

-- Whatever calls a handler makes, in whatever order, the server sees at most one status, the first
-- one (200 where the handler starts with the body), and behind it every body call in order.
pub serve_lem : (cs : List Call) → (serve cs new_wrapper).calls ≡ first_status cs ++ bodies cs
unfolding serve handle write write_header pass_body
serve_lem [] = refl
serve_lem (header n ∷ cs) = serve_wrote cs n (header n ∷ [])
serve_lem (body b ∷ cs) = serve_wrote cs 200 (header 200 ∷ body b ∷ [])
