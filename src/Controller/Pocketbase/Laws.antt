-- ===== src/Controller/Pocketbase/Laws.antt =====
-- A refused token is renewed once, and the request repeated once.
use mathlib.Core.List.{append_assoc}
use rootenv.Common.{
  ◌≡◌, ◌≢◌, ◌↔◌, ◌⊎◌, inl, inr, refl, ap, ◌∙◌, Bool-cases, Option, none, some, List, [], ◌∷◌, ◌++◌,
  Bytes, bytes_eq, bytes_beq, bytes_beq_iff, nat_eq, nat_beq, ne_of_beq, arith,
}
use rootenv.Controller.Pocketbase.{
  Request, Response, Client, Session, send, with_token, accept_token, accept_reply, sign_in_request,
  reauth, patch_request, do_patch, patch_status, patch_last, patch_again, patch_first,
  patch_attempt,
}

module _ {P : Type 0} (decode_token : Bytes → Option Bytes) (id : Bytes) (patch : P) where
  -- What the decoder makes of a sign-in's reply is a token.
  abbrev pub IsToken : Option Bytes → Type 0
  IsToken none = ⊥
  IsToken (some t) = t ≢ []

  -- The repeated patch is answered with 200.
  abbrev pub Repeats : List (Option Response) → Type 0
  Repeats (some q ∷ rs) = q.status ≡ 200
  Repeats _ = ⊥

  -- What the rest of the answers must be for the repeated patch to succeed.
  abbrev pub Renews : List (Option Response) → Type 0
  Renews (some r ∷ rs) = (r.status ≡ 200) × IsToken (decode_token r.body) × Repeats rs
  Renews _ = ⊥

  abbrev pub Succeeds : List (Option Response) → Type 0
  Succeeds (some r ∷ rs) = (r.status ≡ 200) ⊎ (r.status ≡ 401) × Renews rs
  Succeeds _ = ⊥

  repeat_iff :
      (c : Client) (rs : List (Option Response)) (qs : List (Request P))
      → ((patch_last (do_patch id patch (record { client = c; replies = rs; requests = qs }))).0
          ≡ none)
        ↔ Repeats rs
  unfolding send do_patch patch_last patch_status
  repeat_iff c [] qs = ground arith
  repeat_iff c (none ∷ rs) qs = ground arith
  repeat_iff c (some q ∷ rs) qs = ground arith

  after_sign_in_iff :
      (o : Option Bytes) (c : Client) (rs : List (Option Response)) (qs : List (Request P))
      → ((patch_again id patch
            (accept_token o (record { client = c; replies = rs; requests = qs }))).0
          ≡ none)
        ↔ IsToken o × Repeats rs
  unfolding patch_again accept_token
  after_sign_in_iff none c rs qs = ground arith
  after_sign_in_iff (some t) c rs qs =
      ground (arith, bytes_beq_iff t [], repeat_iff (record c { token = t }) rs qs)

  again_iff :
      (c : Client) (rs : List (Option Response)) (qs : List (Request P))
      → ((patch_again id patch
            (reauth decode_token (record { client = c; replies = rs; requests = qs }))).0
          ≡ none)
        ↔ Renews rs
  unfolding reauth send accept_reply patch_again
  again_iff c [] qs = ground arith
  again_iff c (none ∷ rs) qs = ground arith
  again_iff c (some r ∷ rs) qs =
      ground (arith, after_sign_in_iff (decode_token r.body) c rs (qs ++ sign_in_request c ∷ []))

  first_iff :
      (c : Client) (rs : List (Option Response)) (qs : List (Request P))
      → ((patch_attempt decode_token id patch
            (record { client = c; replies = rs; requests = qs })).0
          ≡ none)
        ↔ Succeeds rs
  unfolding patch_attempt patch_first do_patch send patch_status
  first_iff c [] qs = ground arith
  first_iff c (none ∷ rs) qs = ground arith
  first_iff c (some r ∷ rs) qs =
      ground (arith, again_iff c rs (qs ++ patch_request id patch c ∷ []))

  -- A patch is reported as successful exactly if PocketBase answered it with 200, or answered it
  -- with 401, a new sign-in with 200 and a token that is not empty, and the repeated patch with 200.
  pub patch_attempt_iff :
      (s : Session P) → ((patch_attempt decode_token id patch s).0 ≡ none) ↔ Succeeds s.replies
  patch_attempt_iff s = first_iff s.client s.replies s.requests

  -- The requests that a patch may have made: itself, with a sign-in behind it, and repeated with
  -- the new token.
  abbrev pub Made : Client → Client → List (Request P) → Type 0
  Made c c' qs =
      (qs ≡ patch_request id patch c ∷ [])
      ⊎ (qs ≡ patch_request id patch c ∷ sign_in_request c ∷ [])
      ⊎ ((t : Bytes) × (t ≢ [])
          × (c' ≡ record c { token = t })
          × (qs
              ≡ patch_request id patch c
                ∷ sign_in_request c
                ∷ patch_request id patch (record c { token = t })
                ∷ []))

  send-requests :
      (q : Request P) (s : Session P)
      → ((send q s).1.requests ≡ s.requests ++ q ∷ []) × ((send q s).1.client ≡ s.client)
  unfolding send
  send-requests q s = ground arith

  last-same : (x : Option Response × Session P) → (patch_last x).1 ≡ x.1
  unfolding patch_last
  last-same (none, s) = refl
  last-same (some r, s) = refl

  abbrev Renewed : Session P → Session P → Type 0
  Renewed s s' =
      (s'.requests ≡ s.requests)
      ⊎ ((t : Bytes) × (t ≢ [])
          × (s'.client ≡ record (s.client) { token = t })
          × (s'.requests
              ≡ s.requests ++ patch_request id patch (record (s.client) { token = t }) ∷ []))

  token-Renewed :
      (o : Option Bytes) (s : Session P) → Renewed s (patch_again id patch (accept_token o s)).1
  unfolding patch_again accept_token do_patch
  token-Renewed none s = inl refl
  token-Renewed (some t) s = elim (Bool-cases (bytes_beq t [])) [
    | inl e ↦ rw (e, accept_token) (inl refl)
    | inr e ↦
        let sent =
          send-requests (patch_request id patch (record (s.client) { token = t }))
            (with_token t s) in
        let same = last-same (do_patch id patch (with_token t s)) in
        rw (e, accept_token)
          (inr (
            t,
            ne_of_beq t [] e,
            ap (λ u. u.client) same ∙ sent.1,
            ap (λ u. u.requests) same ∙ sent.0,
          ))
  ]

  reply-Renewed :
      (o : Option Response) (s : Session P)
      → Renewed s (patch_again id patch (accept_reply decode_token o s)).1
  unfolding accept_reply patch_again
  reply-Renewed none s = inl refl
  reply-Renewed (some r) s = elim (Bool-cases (nat_beq r.status 200)) [
    | inl e ↦ rw (e, accept_reply) (token-Renewed (decode_token r.body) s)
    | inr e ↦ rw (e, accept_reply) (inl refl)
  ]

  abbrev pub Makes : Client → List (Request P) → Session P → Type 0
  Makes c qs s' = (new' : List (Request P)) × (s'.requests ≡ qs ++ new') × Made c s'.client new'

  abbrev signed_in : Client → List (Option Response) → List (Request P) → Session P
  signed_in c rs qs = record {
    client = c;
    replies = rs;
    requests = (qs ++ patch_request id patch c ∷ []) ++ sign_in_request c ∷ [];
  }

  two_requests :
      (c : Client) (rs : List (Option Response)) (qs : List (Request P)) (s' : Session P)
      → Renewed (signed_in c rs qs) s'
      → Makes c qs s'
  two_requests c rs qs s' (inl h) =
      (patch_request id patch c ∷ sign_in_request c ∷ [], h ∙ append_assoc qs _ _, inr (inl refl))
  two_requests c rs qs s' (inr (t, ne, hc, hq)) = (
    patch_request id patch c
        ∷ sign_in_request c
        ∷ patch_request id patch (record c { token = t })
        ∷ [],
    hq ∙ append_assoc (qs ++ patch_request id patch c ∷ []) _ _ ∙ append_assoc qs _ _,
    inr (inr (t, ne, hc, refl)),
  )

  reauth-Makes :
      (c : Client) (rs : List (Option Response)) (qs : List (Request P))
      → Makes c qs
          (patch_again id patch (
            reauth decode_token (record {
              client = c;
              replies = rs;
              requests = qs ++ patch_request id patch c ∷ [];
            }))).1
  unfolding reauth send
  reauth-Makes c [] qs =
      two_requests c [] qs
        (patch_again id patch (accept_reply decode_token none (signed_in c [] qs))).1
        (reply-Renewed none (signed_in c [] qs))
  reauth-Makes c (o ∷ rs) qs =
      two_requests c rs qs
        (patch_again id patch (accept_reply decode_token o (signed_in c rs qs))).1
        (reply-Renewed o (signed_in c rs qs))

  first-Makes :
      (c : Client) (rs : List (Option Response)) (qs : List (Request P))
      → Makes c qs
          (patch_attempt decode_token id patch
            (record { client = c; replies = rs; requests = qs })).1
  unfolding patch_attempt patch_first do_patch send
  first-Makes c [] qs = (patch_request id patch c ∷ [], refl, inl refl)
  first-Makes c (none ∷ rs) qs = (patch_request id patch c ∷ [], refl, inl refl)
  first-Makes c (some r ∷ rs) qs = elim (Bool-cases (nat_beq r.status 401)) [
    | inl e ↦ rw (e, patch_attempt, patch_first) (reauth-Makes c rs qs)
    | inr e ↦ rw (e, patch_attempt) (patch_request id patch c ∷ [], refl, inl refl)
  ]

  -- Whatever PocketBase answers, a patch makes one request with the client's token, or that and a
  -- sign-in, or these and the same patch with the new token, which is not empty and which the
  -- client then keeps.
  pub patch_attempt-Makes :
      (s : Session P) → Makes s.client s.requests (patch_attempt decode_token id patch s).1
  patch_attempt-Makes s = first-Makes s.client s.replies s.requests
