-- ===== src/Relay/Handler/Laws.antt =====
-- What a connection is served for, and what is left when it ends.
use rootenv.Common.{
  ℕ, ◌≡◌, ◌≢◌, ◌⊎◌, inl, inr, true, false, some, Option-cases, suc, List, [], ◌∷◌, Bytes, bytes_eq,
  bytes_beq_iff, if◌then◌else◌, arith,
}
use rootenv.Common.Int.{leb_ℤ}
use rootenv.Relay.Limiter.Sequential.{acquire_lem, release-acquire}
use rootenv.Relay.Limiter.{ConnLimiter, acquire, load}
use rootenv.Relay.Handler.{
  Handler, Request, World, Event, close, serve, wait_add, wait_done, identify, serve_as, serve_http,
  accept_options, timeout_of,
}
use rootenv.Text.{trim, is_slash}

-- The event is in the list.
abbrev pub Occurs : Event → List Event → Type 0
Occurs e [] = ⊥
Occurs e (x ∷ xs) = (x ≡ e) ⊎ Occurs e xs

identify_lem :
    (h : Handler) (r : Request) (user : Bytes)
    → h.skip_auth ≡ false
    → identify h r ≡ some user
    → (r.attempt_header ≡ h.attempt_id)
      × (r.user_header ≡ h.owner_id)
      × (user ≡ r.user_header)
      × (user ≢ [])
unfolding identify
identify_lem h r user s e = ground (
  arith,
  bytes_beq_iff r.attempt_header h.attempt_id,
  bytes_beq_iff r.user_header h.owner_id,
  bytes_beq_iff r.user_header [],
)

-- The user of `serve_http-serves` is the one that the headers identify.
served :
    (h : Handler) (w : World) (r : Request) (l : ConnLimiter) (asset user : Bytes)
    → Occurs (serve asset user) (serve_http h w r l).0
    → (w.accept (accept_options h) ≡ true)
      × (w.read_within (timeout_of h) ≡ true)
      × (identify h r ≡ some user)
      × (asset ≡ trim is_slash r.asset_name)
      × ((acquire user l).1 ≡ true)
unfolding serve_http
served h w r l asset user o = ground arith

-- What a session tells of its request.
abbrev pub IsEntitled : Handler → World → Request → ConnLimiter → Bytes → Bytes → Type 0
IsEntitled h w r l asset user =
    (w.accept (accept_options h) ≡ true)
    × (w.read_within (timeout_of h) ≡ true)
    × (r.attempt_header ≡ h.attempt_id)
    × (r.user_header ≡ h.owner_id)
    × (user ≡ h.owner_id)
    × (user ≢ [])
    × (asset ≡ trim is_slash r.asset_name)
    × (leb_ℤ l.max (load user l.counts) ≡ false)

-- With checks on, the backend serves a connection only if it was accepted, its first message came
-- in time, its headers name this attempt and its owner, the owner's ID is not empty, and the owner
-- was below the connection limit. The asset is the path's, with outer slashes trimmed.
pub serve_http-serves :
    (h : Handler) (w : World) (r : Request) (l : ConnLimiter) (asset user : Bytes)
    → h.skip_auth ≡ false
    → Occurs (serve asset user) (serve_http h w r l).0
    → IsEntitled h w r l asset user
serve_http-serves h w r l asset user checks o =
    ground (arith, served h w r l asset user o, identify_lem h r user, acquire_lem user user l)

abbrev pub closes : List Event → ℕ
closes [] = 0
closes (close _ _ ∷ es) = suc (closes es)
closes (_ ∷ es) = closes es

abbrev pub balance : List Event → ℕ × ℕ
balance [] = (0, 0)
balance (wait_add ∷ es) = let (a, d) = balance es in (suc a, d)
balance (wait_done ∷ es) = let (a, d) = balance es in (a, suc d)
balance (_ ∷ es) = balance es

-- Every accepted connection is closed exactly once, and no other is; what is added to the wait
-- group is taken off again.
pub serve_http-closes :
    (h : Handler) (w : World) (r : Request) (l : ConnLimiter)
    → let es = (serve_http h w r l).0 in
      (closes es ≡ (if w.accept (accept_options h) then 1 else 0))
      × ((balance es).0 ≡ (balance es).1)
unfolding serve_http
serve_http-closes h w r l = ground arith

serve_as-load :
    (h : Handler) (w : World) (asset user u : Bytes) (l : ConnLimiter)
    → ((l : ConnLimiter) → w.others l ≡ l)
    → load u (serve_as h w asset user l).1.counts ≡ load u l.counts
unfolding serve_as
serve_as-load h w asset user u l quiet =
    ground (arith, acquire_lem user u l, release-acquire user u l, quiet (acquire user l).0)

-- Where the other connections leave the limiter alone, it ends on every path with the counts that
-- it began with.
pub serve_http-load :
    (h : Handler) (w : World) (r : Request) (u : Bytes) (l : ConnLimiter)
    → ((l : ConnLimiter) → w.others l ≡ l)
    → load u (serve_http h w r l).1.counts ≡ load u l.counts
unfolding serve_http
serve_http-load h w r u l quiet = elim (Option-cases (identify h r)) [
  | inl e ↦ ground arith
  | inr (user, e) ↦ ground (arith, serve_as-load h w (trim is_slash r.asset_name) user u l quiet)
]
