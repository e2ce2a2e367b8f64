-- ===== src/JsonParser/Stream.antt =====
-- src/json_parser.cpp: frames that come to the decoder behind others.
use sioxx.Prelude.{◌≡◌, refl, sym, ap, ◌∙◌, Option, none, some, List, [], ◌∷◌, ◌++◌, ◌>>=◌}
use sioxx.Prelude.Bytes.{Bytes}
use sioxx.Message.{Json}
use sioxx.Packet.{Packet}
use sioxx.JsonParser.Encode.{Frame}
use sioxx.JsonParser.Decode.{Decoder, Decoded, more, done, fault, decode, decode_all}

-- A packet in front of those that come out later.
abbrev pub in_front : Packet → Option (Decoder × List Packet) → Option (Decoder × List Packet)
in_front p r = r >>= λ (d, ps). some (d, p ∷ ps)

module _ (parse : Bytes → Option Json) where
  pub decode_all-more :
      (d d' : Decoder) (f : Frame) (fs : List Frame)
      → decode parse d f ≡ more d'
      → decode_all parse d (f ∷ fs) ≡ decode_all parse d' fs
  unfolding decode_all
  decode_all-more d d' f fs e = rw (e, decode_all) refl

  pub decode_all-done :
      (d d' : Decoder) (p : Packet) (f : Frame) (fs : List Frame)
      → decode parse d f ≡ done d' p
      → decode_all parse d (f ∷ fs) ≡ in_front p (decode_all parse d' fs)
  unfolding decode_all
  decode_all-done d d' p f fs e = rw (e, decode_all) refl

  pub decode_all-fault :
      (d : Decoder) (f : Frame) (fs : List Frame)
      → decode parse d f ≡ fault
      → decode_all parse d (f ∷ fs) ≡ none
  unfolding decode_all
  decode_all-fault d f fs e = rw (e, decode_all) refl

  abbrev pub behind : List Packet → Option (Decoder × List Packet) → Option (Decoder × List Packet)
  behind ps none = none
  behind ps (some (d, qs)) = some (d, ps ++ qs)

  -- What the decoder makes of the frames that come after others.
  abbrev pub decode_rest :
      Option (Decoder × List Packet) → List Frame → Option (Decoder × List Packet)
  decode_rest none gs = none
  decode_rest (some (d, ps)) gs = behind ps (decode_all parse d gs)

  behind_nothing : (r : Option (Decoder × List Packet)) → r ≡ behind [] r
  behind_nothing none = refl
  behind_nothing (some (d, qs)) = refl

  decode_rest-in_front :
      (p : Packet) (r : Option (Decoder × List Packet)) (gs : List Frame)
      → in_front p (decode_rest r gs) ≡ decode_rest (in_front p r) gs
  decode_rest-in_front p none gs = refl
  decode_rest-in_front p (some (d, ps)) gs = go (decode_all parse d gs)
    where
      go : (r : Option (Decoder × List Packet)) → in_front p (behind ps r) ≡ behind (p ∷ ps) r
      go none = refl
      go (some (d', qs)) = refl

  abbrev pub Appends : List Frame → List Frame → Decoder → Type 0
  Appends fs gs s = decode_all parse s (fs ++ gs) ≡ decode_rest (decode_all parse s fs) gs

  append_step :
      (s : Decoder) (f : Frame) (fs gs : List Frame) (x : Decoded)
      → ((s' : Decoder) → Appends fs gs s')
      → decode parse s f ≡ x
      → Appends (f ∷ fs) gs s
  append_step s f fs gs (more d) ih e =
      decode_all-more s d f (fs ++ gs) e
      ∙ ih d
      ∙ ap (λ r. decode_rest r gs) (sym (decode_all-more s d f fs e))
  append_step s f fs gs (done d p) ih e =
      decode_all-done s d p f (fs ++ gs) e
      ∙ ap (in_front p) (ih d)
      ∙ decode_rest-in_front p (decode_all parse d fs) gs
      ∙ ap (λ r. decode_rest r gs) (sym (decode_all-done s d p f fs e))
  append_step s f fs gs fault ih e =
      decode_all-fault s f (fs ++ gs) e
      ∙ ap (λ r. decode_rest r gs) (sym (decode_all-fault s f fs e))

  pub decode_all-append : (s : Decoder) (fs gs : List Frame) → Appends fs gs s
  unfolding decode_all
  decode_all-append s [] gs = behind_nothing (decode_all parse s gs)
  decode_all-append s (f ∷ fs) gs =
      append_step s f fs gs (decode parse s f) (λ s'. decode_all-append s' fs gs) refl
