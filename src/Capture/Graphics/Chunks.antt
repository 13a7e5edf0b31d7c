-- ===== src/Capture/Graphics/Chunks.antt =====
-- internal/capture/graphics.go: transmissions in chunks.
use gossh.Prelude.{
  ℕ, ◌<◌, ◌≡◌, refl, sym, ap, ◌∙◌, true, false, List, [], ◌∷◌, ◌++◌, some, length, append-nil,
  append_assoc, lt→ltb,
}
use gossh.Capture.Graphics.{Keys, Kitty, no_pending, is_ignored, has_more, kitty_command}

-- The chunks before the last one: each says that more follow.
abbrev pub AllOpen : List (Keys × List ℕ) → Type 0
AllOpen [] = Unit {0}
AllOpen (c ∷ cs) = (is_ignored c.0 ≡ false) × (has_more c.0 ≡ true) × AllOpen cs

abbrev pub sent_by : List (Keys × List ℕ) → List ℕ
sent_by [] = []
sent_by (c ∷ cs) = c.1 ++ sent_by cs

unfoldable pub run_chunks : List (Keys × List ℕ) → Kitty → Kitty
unfolding kitty_command
run_chunks [] k = k
run_chunks (c ∷ cs) k = run_chunks cs (kitty_command c.0 c.1 k)

abbrev pub collecting : Keys → List ℕ → List (Keys × List ℕ) → Kitty
collecting keys got done = record {
  pending = record { keys = some keys; collected = got };
  finished = done;
}

open_chunk :
    (keys first : Keys) (sent got : List ℕ) (done : List (Keys × List ℕ))
    → is_ignored keys ≡ false
    → has_more keys ≡ true
    → kitty_command keys sent (collecting first got done) ≡ collecting first (got ++ sent) done
unfolding kitty_command
open_chunk keys first sent got done real more = rw (kitty_command, real, more) refl

first_chunk :
    (keys : Keys) (sent : List ℕ) (done : List (Keys × List ℕ))
    → is_ignored keys ≡ false
    → has_more keys ≡ true
    → kitty_command keys sent (record { pending = no_pending; finished = done })
      ≡ collecting keys sent done
unfolding kitty_command
first_chunk keys sent done real more = rw (kitty_command, real, more) refl

last_chunk :
    (keys first : Keys) (sent got : List ℕ) (done : List (Keys × List ℕ))
    → is_ignored keys ≡ false
    → has_more keys ≡ false
    → 0 < length got
    → kitty_command keys sent (collecting first got done)
      ≡ record { pending = no_pending; finished = done ++ ((first, got ++ sent) ∷ []) }
unfolding kitty_command
last_chunk keys first sent got done real last some_data =
    rw (kitty_command, real, last, lt→ltb 0 (length got) some_data) refl

more_chunks :
    (cs : List (Keys × List ℕ)) (first : Keys) (got : List ℕ) (done : List (Keys × List ℕ))
    → AllOpen cs
    → run_chunks cs (collecting first got done) ≡ collecting first (got ++ sent_by cs) done
unfolding run_chunks
more_chunks [] first got done all = ap (λ g. collecting first g done) (sym (append-nil got))
more_chunks (c ∷ cs) first got done all =
    ap (run_chunks cs) (open_chunk c.0 first c.1 got done all.0 all.1)
    ∙ more_chunks cs first (got ++ c.1) done all.2
    ∙ ap (λ g. collecting first g done) (append_assoc got c.1 (sent_by cs))

-- An image sent in chunks, the first with its parameters and all but the last saying that more follow,
-- is handed on once, when the last one is in, with the first chunk's parameters and the data of all in
-- order, and nothing is left of it; provided that the chunks before the last carry some data.
pub chunks_finish_once :
    (first last : Keys) (sent final : List ℕ) (cs done : List (Keys × List ℕ))
    → is_ignored first ≡ false
    → has_more first ≡ true
    → AllOpen cs
    → is_ignored last ≡ false
    → has_more last ≡ false
    → 0 < length (sent ++ sent_by cs)
    → kitty_command last final (
        run_chunks cs (kitty_command first sent (record { pending = no_pending; finished = done })))
      ≡ record {
        pending = no_pending;
        finished = done ++ ((first, (sent ++ sent_by cs) ++ final) ∷ []);
      }
chunks_finish_once first last sent final cs done real more all real_last is_last some_data =
    ap (λ k. kitty_command last final (run_chunks cs k)) (first_chunk first sent done real more)
    ∙ ap (kitty_command last final) (more_chunks cs first sent done all)
    ∙ last_chunk last first final (sent ++ sent_by cs) done real_last is_last some_data

-- If the chunk with the parameters carries no data and the last one follows it, the image is handed on
-- with the parameters of the last one, and those of the first are lost.
pub empty_first_chunk :
    (first last : Keys) (final : List ℕ) (done : List (Keys × List ℕ))
    → is_ignored first ≡ false
    → has_more first ≡ true
    → is_ignored last ≡ false
    → has_more last ≡ false
    → kitty_command last final
        (kitty_command first [] (record { pending = no_pending; finished = done }))
      ≡ record { pending = no_pending; finished = done ++ ((last, final) ∷ []) }
unfolding kitty_command
empty_first_chunk first last final done real more real_last is_last =
    ap (kitty_command last final) (first_chunk first [] done real more)
    ∙ rw (kitty_command, real_last, is_last) refl
