-- ===== src/AgUi/Compaction/Laws/Streams.antt =====
-- The open streams of packages/integrations/ag-ui/src/messages-compaction.ts.
use forge_room.Base.{
  String, Bool, true, some, [], ◌∷◌, all, ◌==◌, string_eq, ◌≡◌, refl, sym, some-injective,
  none-some, Bool-cases, inl, inr, eq_iff, and_true,
}
use mathlib.Core.Path.{subst}
use forge_room.AgUi.Compaction.{
  MessageStream, OpenStreams, lookup_stream, set_stream, delete_stream,
}

-- The test holds of each open stream with its key.
abbrev pub all_streams : (String → MessageStream → Bool) → OpenStreams → Bool
all_streams p = all λ entry. p entry.0 entry.1

module _ (p : String → MessageStream → Bool) where
  pub lookup_stream-all :
      (streams : OpenStreams) (key : String) (stream : MessageStream)
      → all_streams p streams ≡ true
      → lookup_stream streams key ≡ some stream
      → p key stream ≡ true
  lookup_stream-all [] key stream h found = absurd (none-some found)
  lookup_stream-all ((k, s) ∷ streams) key stream h found = elim (Bool-cases (k == key)) [
    | inl same ↦
        let e : k ≡ key = (eq_iff k key).0 same in
        let here = subst (λ x. p x s ≡ true) e (and_true (p k s) _ h).0 in
        subst (λ x. p key x ≡ true) (some-injective (rw same at found)) here
    | inr other ↦ lookup_stream-all streams key stream (and_true (p k s) _ h).1 (rw other at found)
  ]

  pub set_stream-all :
      (streams : OpenStreams) (key : String) (stream : MessageStream)
      → all_streams p streams ≡ true
      → p key stream ≡ true
      → all_streams p (set_stream streams key stream) ≡ true
  set_stream-all [] key stream h new = rw new refl
  set_stream-all ((k, s) ∷ streams) key stream h new = elim (Bool-cases (k == key)) [
    | inl same ↦
        let e : k ≡ key = (eq_iff k key).0 same in
        let here = subst (λ x. p x stream ≡ true) (sym e) new in
        rw (same, here) (and_true (p k s) _ h).1
    | inr other ↦
        let rest = set_stream-all streams key stream (and_true (p k s) _ h).1 new in
        rw (other, (and_true (p k s) _ h).0) rest
  ]

  pub delete_stream-all :
      (streams : OpenStreams) (key : String)
      → all_streams p streams ≡ true
      → all_streams p (delete_stream streams key) ≡ true
  delete_stream-all [] key h = refl
  delete_stream-all ((k, s) ∷ streams) key h = elim (Bool-cases (k == key)) [
    | inl same ↦ rw same (and_true (p k s) _ h).1
    | inr other ↦
        let rest = delete_stream-all streams key (and_true (p k s) _ h).1 in
        rw (other, (and_true (p k s) _ h).0) rest
  ]

-- A test that implies another.
pub all_streams_mono :
    (p q : String → MessageStream → Bool)
    → ((key : String) (stream : MessageStream) → p key stream ≡ true → q key stream ≡ true)
    → (streams : OpenStreams) → all_streams p streams ≡ true
    → all_streams q streams ≡ true
all_streams_mono p q f [] h = refl
all_streams_mono p q f ((k, s) ∷ streams) h =
    let (here, rest) = and_true (p k s) _ h in rw (f k s here) (all_streams_mono p q f streams rest)
