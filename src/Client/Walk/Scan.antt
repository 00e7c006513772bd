-- ===== src/Client/Walk/Scan.antt =====
-- One step of the loop over a Response in src/Client.cpp.
use snmpio.Common.{
  Bool, true, false, not, ◌&&◌, ◌||◌, Option, some, List, [], ◌∷◌, ◌≡◌, ◌⊎◌, inl, inr, arith,
  Bool-cases, Option-cases,
}
use snmpio.Oid.{Oid, less, is_prefix_of}
use snmpio.Value.{Varbind, is_exception}
use snmpio.Common.Int32.{ℤ, pos, less_int}
use snmpio.Error.{client_stopped}
use snmpio.Client.{Failure, library, Response}
use snmpio.Client.Walk.{
  Requester, BatchHandler, stop_now, is_too_big, half, scan, take_response, handle_reply,
}

-- A value of the subtree, not one of the markers that end it.
abbrev pub IsBeneath : Oid → Varbind → Type 0
IsBeneath base vb = (is_prefix_of base vb.name ≡ true) × (is_exception vb.val ≡ false)

pub scan-cons :
    (base current : Oid) (vb : Varbind) (vbs : List Varbind) (done : Bool) (last : Oid)
    (batch : List Varbind)
    → scan base current (vb ∷ vbs) ≡ some (done, last, batch)
    → ((done ≡ true) × (last ≡ current) × (batch ≡ []))
      ⊎ ((less current vb.name ≡ true)
          × IsBeneath base vb
          × (more : List Varbind) × (scan base vb.name vbs ≡ some (done, last, more))
          × (batch ≡ vb ∷ more))
unfolding scan
scan-cons base current vb vbs done last batch h =
    elim (Bool-cases (is_exception vb.val || not (is_prefix_of base vb.name))) [
      | inl c ↦ inl (ground (arith, c))
      | inr c ↦ elim (Bool-cases (less current vb.name)) [
        | inr d ↦ absurd (ground (arith, c, d))
        | inl d ↦ elim (Option-cases (scan base vb.name vbs)) [
          | inl e ↦ absurd (ground (arith, c, d, e))
          | inr ((done1, last1, more), e) ↦
              inr (d, ground (arith, c), more, ground (arith, c, d, e), ground (arith, c, d, e))
        ]
      ]
    ]

module _ {S : Type 0} (requester : Requester S) (on_batch : BatchHandler S) where
  -- Behind a request a Walk asks again for less, is over, or takes the Response.
  pub handle_reply-cases :
      (again : Oid → ℤ → S → Option (S × Option Failure)) (base current : Oid) (max : ℤ) (s : S)
      (ec : Option Failure) (resp : Response)
      → (handle_reply requester on_batch again base current max s ec resp
          ≡ again current (half max) s)
        ⊎ (((e : Option Failure) × (handle_reply requester on_batch again base current max s ec resp
                ≡ some (s, e)))
            ⊎ (handle_reply requester on_batch again base current max s ec resp
                ≡ take_response requester on_batch again base current max s resp.varbinds))
  unfolding handle_reply
  handle_reply-cases again base current max s ec resp =
      elim (Bool-cases (is_too_big ec && less_int (pos 1) max)) [
        | inl c ↦ inl (ground (arith, c))
        | inr c ↦ elim (Option-cases ec) [
          | inr (e, d) ↦ elim (Option-cases (stop_now (requester.cancelled s))) [
            | inl f ↦ inr (inl (some e, ground (arith, c, d, f)))
            | inr (x, f) ↦ inr (inl (some x, ground (arith, c, d, f)))
          ]
          | inl d ↦ elim (Bool-cases (requester.stopping s)) [
            | inl f ↦ inr (inl (some (library client_stopped), ground (arith, c, d, f)))
            | inr f ↦ inr (inr (ground (arith, c, d, f)))
          ]
        ]
      ]
