-- ===== src/Endpoints/Anthropic/Passes.antt =====
-- Events that the Anthropic endpoint writes and the Anthropic provider reads, one after the other.
use mathlib.Core.List.{append_assoc}
use llmadapter.Prelude.{◌≡◌, refl, sym, ◌∙◌, ap, List, [], ◌∷◌, ◌++◌, nat_eq, string_eq}
use llmadapter.Unified.Event.{Event}
use llmadapter.Providers.Anthropic.Decoder as Decoder
use llmadapter.Providers.Anthropic.Decoder.{EventDecoder, DecoderOps, new_event_decoder}
use llmadapter.Endpoints.Anthropic.Stream.{StreamFrame, StreamState, push}

abbrev pub States : Type 0
States = StreamState × EventDecoder

module _ (ops : DecoderOps) where
  -- What the decoder makes of frames.
  unfoldable pub decode : List StreamFrame → EventDecoder → List Event × EventDecoder
  decode [] d = ([], d)
  decode (frame ∷ frames) d =
      let (out, d') = Decoder.push ops frame.payload d in
      let (more, d'') = decode frames d' in (out ++ more, d'')

  pub decode-append :
      (xs ys : List StreamFrame) (d : EventDecoder)
      → decode (xs ++ ys) d
        ≡ ((decode xs d).0 ++ (decode ys (decode xs d).1).0, (decode ys (decode xs d).1).1)
  unfolding decode
  decode-append [] ys d = refl
  decode-append (x ∷ xs) ys d =
      let (out, d') = Decoder.push ops x.payload d in
      let (more, d'') = decode xs d' in
      let (last, d''') = decode ys d'' in
      ap (λ (p : List Event × EventDecoder). (out ++ p.0, p.1)) (decode-append xs ys d')
      ∙ ap (λ (es : List Event). (es, d''')) (sym (append_assoc out more last))

  -- One event written and read back.
  unfoldable pub pass : Event → States → List Event × States
  unfolding decode
  pass ev (s, d) =
      let (frames, s') = push ev s in let (out, d') = decode frames d in (out, (s', d'))

  unfoldable pub pass_all : List Event → States → List Event × States
  pass_all [] p = ([], p)
  pass_all (ev ∷ events) p =
      let (out, p') = pass ev p in let (more, p'') = pass_all events p' in (out ++ more, p'')

  pass_all_lem :
      (xs ys : List Event) (p : States)
      → pass_all (xs ++ ys) p ≡ (
        (pass_all xs p).0 ++ (pass_all ys (pass_all xs p).1).0,
        (pass_all ys (pass_all xs p).1).1,
      )
  unfolding pass_all
  pass_all_lem [] ys p = refl
  pass_all_lem (x ∷ xs) ys p =
      let (out, p') = pass x p in
      let (more, p'') = pass_all xs p' in
      let (last, end) = pass_all ys p'' in
      ap (λ (q : List Event × States). (out ++ q.0, q.1)) (pass_all_lem xs ys p')
      ∙ ap (λ (es : List Event). (es, end)) (sym (append_assoc out more last))

  -- Two stretches of events that come back as they were written.
  pub pass_all-append :
      (xs ys : List Event) (p : States) {q r : States}
      → pass_all xs p ≡ (xs, q)
      → pass_all ys q ≡ (ys, r)
      → pass_all (xs ++ ys) p ≡ (xs ++ ys, r)
  pass_all-append xs ys p {q} {r} hx hy =
      pass_all_lem xs ys p
      ∙ ap (λ (o : List Event × States). (o.0 ++ (pass_all ys o.1).0, (pass_all ys o.1).1)) hx
      ∙ ap (λ (o : List Event × States). (xs ++ o.0, o.1)) hy

  -- An event that comes back alone, before others that do.
  pub pass_all-cons :
      (x : Event) (ys : List Event) (p : States) {q r : States}
      → pass x p ≡ (x ∷ [], q)
      → pass_all ys q ≡ (ys, r)
      → pass_all (x ∷ ys) p ≡ (x ∷ ys, r)
  unfolding pass_all
  pass_all-cons x ys p {q} {r} hx hy =
      ap (λ (o : List Event × States). (o.0 ++ (pass_all ys o.1).0, (pass_all ys o.1).1)) hx
      ∙ ap (λ (o : List Event × States). (x ∷ o.0, o.1)) hy
