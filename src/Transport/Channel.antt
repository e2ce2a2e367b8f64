-- ===== src/Transport/Channel.antt =====
-- The specification of sending that both transports are held to: a channel holds what was accepted and
-- not yet delivered, in order, until it is shut for ever.
use sioxx.Prelude.{
  ◌≡◌, refl, sym, ap, ◌∙◌, Option, none, some, List, [], ◌++◌, append_assoc, append-nil,
}

-- One step, with what is accepted and what is delivered in it.
pub data Channel {ℓ} {A : Type ℓ}
    : Option (List A) → (accepted delivered : List A) → Option (List A) → Type ℓ where
  in_order :
      {held accepted out held' : List A}
      → held ++ accepted ≡ out ++ held'
      → Channel (some held) accepted out (some held')
  shuts :
      {held accepted out : List A} (rest : List A)
      → held ++ accepted ≡ out ++ rest
      → Channel (some held) accepted out none
  stays_shut : {accepted : List A} → Channel none accepted [] none

module _ {ℓ} {A : Type ℓ} where
  -- A channel that is not touched, and one that is shut with all that it holds.
  pub still : (h : Option (List A)) → Channel h [] [] h
  still none = stays_shut
  still (some l) = in_order (append-nil l)

  pub shut : (h : Option (List A)) (a : List A) → Channel h a [] none
  shut none a = stays_shut
  shut (some l) a = shuts (l ++ a) refl

  -- What is delivered begins with what is held; a channel that is shut delivers nothing.
  abbrev pub Follows : Option (List A) → (accepted out : List A) → Type ℓ
  Follows none a out = out ≡ []
  Follows (some h) a out = (rest : List A) × (h ++ a ≡ out ++ rest)

  pub Follows-nothing : (h : Option (List A)) → Follows h [] []
  Follows-nothing none = refl
  Follows-nothing (some h) = (h, append-nil h)

  pub Channel-Follows :
      {h h' : Option (List A)} {a out : List A} (a' out' : List A)
      → Channel h a out h'
      → Follows h' a' out'
      → Follows h (a ++ a') (out ++ out')
  Channel-Follows a' out' (in_order {held = h} {accepted = a} {out = out} {held' = h'} e)
        (rest, f) =
      (
        rest,
        sym (append_assoc h a a')
            ∙ ap (λ l. l ++ a') e
            ∙ append_assoc out h' a'
            ∙ ap (λ l. out ++ l) f
            ∙ sym (append_assoc out out' rest),
      )
  Channel-Follows a' out' (shuts {held = h} {accepted = a} {out = out} rest e) f = (
    rest ++ a',
    rw (f, append-nil out)
        (sym (append_assoc h a a') ∙ ap (λ l. l ++ a') e ∙ append_assoc out rest a'),
  )
  Channel-Follows a' out' stays_shut f = f
