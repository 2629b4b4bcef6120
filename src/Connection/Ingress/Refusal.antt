-- ===== src/Connection/Ingress/Refusal.antt =====
-- What a message that is too long or comes too soon brings about.
use beprotocol.Common.{
  ℕ, suc, ◌≡◌, ◌≤◌, refl, ap, sym, ◌∙◌, List, [], ◌∷◌, ◌++◌, Bool, true, false, Option, none, some,
  ◌||◌, not, length, ltb, if◌then◌else◌, arith,
}
use mathlib.Core.Bool.{false≢true}
use beprotocol.Packet.Dispatch.{PacketClass}
use beprotocol.Connection.Envelope.{Libraries}
use beprotocol.Connection.Ingress.{
  Limits, admit, CallbackSet, Effect, should_disconnect, limit_call, Context, Window, Holder,
  held_session, remove_session, renew_window, process_taken, refuse, process_session_packet,
}

-- What a message over a limit is to bring about: the callback, if it is set, is called once with the size and the
-- count of the window; if there is none or if it answers so, the client is taken out of the flush schedule and one
-- session is disconnected, the one that the map held or, if there was none, the message's own.
unfoldable pub refusal : Option (ℕ → ℕ → Bool) → ℕ → ℕ → Holder → List Effect
refusal none bytes count holder =
    Effect.cancels_flush ∷ (Effect.disconnects (held_session holder) ∷ [])
refusal (some f) bytes count holder =
    Effect.limit_exceeded bytes count
    ∷ (if f bytes count
        then Effect.cancels_flush ∷ (Effect.disconnects (held_session holder) ∷ [])
        else [])

module _ (registry : ℕ → Option PacketClass) (libs : Libraries) (notification lost : ℕ) where
  refuse_lem :
      (callbacks : CallbackSet) (bytes : ℕ) (c : Context registry libs notification lost)
      → let r = refuse registry libs notification lost callbacks bytes c in
        (r.0 ≡ refusal callbacks.on_raw_ingress_limit_exceeded bytes c.window.packets c.holder)
        × (r.1.session ≡ c.session)
        × (r.1.window ≡ c.window)
  unfolding refuse limit_call should_disconnect remove_session
  refuse_lem callbacks bytes c = go callbacks.on_raw_ingress_limit_exceeded
    where
      count : ℕ
      count = c.window.packets

      go :
          (f : Option (ℕ → ℕ → Bool))
          → let calls : List Effect = elim f [
            | none ↦ []
            | some _ ↦ Effect.limit_exceeded bytes count ∷ []
          ] in
            let r : List Effect × Context registry libs notification lost =
              if elim f [ none ↦ true | some g ↦ g bytes count ]
              then (
                calls ++ (Effect.cancels_flush ∷ (Effect.disconnects (held_session c.holder) ∷ [])),
                record c { holder = Holder.nobody },
              )
              else (calls, c) in
            (r.0 ≡ refusal f bytes count c.holder)
            × (r.1.session ≡ c.session)
            × (r.1.window ≡ c.window)
      go none = unfold refusal in (refl, refl, refl)
      go (some g) = unfold refusal in ground arith

  admit-refused :
      (limits : Limits) (now : ℕ) (w : Window)
      → (admit limits now w).0 ≡ false
      → (admit limits now w).1.packets ≤ w.packets
  unfolding admit renew_window
  admit-refused limits now w e = ground arith

  -- A message that is longer than the limit, or that comes when the window is full, has the effects of `refusal` for
  -- its size and the count of the window, and no others: nothing of it is decrypted or delivered, and it is not
  -- counted.
  pub process_session_packet-refused :
      (limits : Limits) (callbacks : CallbackSet) (now message_id : ℕ) (payload : List ℕ)
      (c : Context registry libs notification lost)
      → (ltb limits.max_packet_bytes (suc (length payload)) || not (admit limits now c.window).0)
        ≡ true
      → let r =
          process_session_packet registry libs notification lost limits callbacks now message_id
            payload c in
        (r.0
          ≡ refusal callbacks.on_raw_ingress_limit_exceeded
              (suc (length payload))
              r.1.window.packets
              c.holder)
        × (r.1.session ≡ c.session)
        × (r.1.window.packets ≤ c.window.packets)
  unfolding process_session_packet
  process_session_packet-refused limits callbacks now message_id payload c h =
      go (ltb limits.max_packet_bytes (suc (length payload))) (admit limits now c.window).0 h refl
    where
      counted : Context registry libs notification lost
      counted = record c { window = (admit limits now c.window).1 }

      bytes : ℕ
      bytes = suc (length payload)

      early :
          (admit limits now c.window).0 ≡ false
          → (admit limits now c.window).1.packets ≤ c.window.packets
      early e = admit-refused limits now c.window e

      told :
          (d : Context registry libs notification lost)
          → let r = refuse registry libs notification lost callbacks bytes d in
            (r.0 ≡ refusal callbacks.on_raw_ingress_limit_exceeded bytes d.window.packets d.holder)
              × (r.1.session ≡ d.session)
              × (r.1.window ≡ d.window)
            → d.window.packets ≤ c.window.packets
            → (r.0
                ≡ refusal callbacks.on_raw_ingress_limit_exceeded bytes r.1.window.packets d.holder)
              × (r.1.session ≡ d.session)
              × (r.1.window.packets ≤ c.window.packets)
      told d (effects, session, window) early = (
        effects
            ∙ ap
                (λ (w : Window).
                  refusal callbacks.on_raw_ingress_limit_exceeded bytes w.packets d.holder)
                (sym window),
        session,
        omega (arith, ap (λ (w : Window). w.packets) window),
      )

      go :
          (long taken : Bool)
          → (long || not taken) ≡ true
          → (admit limits now c.window).0 ≡ taken
          → let r =
              if long
              then refuse registry libs notification lost callbacks bytes c
              else if taken
              then process_taken registry libs notification lost callbacks message_id payload
                  counted
              else refuse registry libs notification lost callbacks bytes counted in
            (r.0
              ≡ refusal callbacks.on_raw_ingress_limit_exceeded bytes r.1.window.packets c.holder)
            × (r.1.session ≡ c.session)
            × (r.1.window.packets ≤ c.window.packets)
      go true taken h e = told c (refuse_lem callbacks bytes c) (omega arith)
      go false true h e = absurd (false≢true h)
      go false false h e = told counted (refuse_lem callbacks bytes counted) (early e)
