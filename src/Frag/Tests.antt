-- ===== src/Frag/Tests.antt =====
-- Runs of the reassembler at concrete frames.
use cockroach_chat.Prelude.{
  map, ◌+◌, ℕ, ◌≡◌, refl, none, some, List, [], ◌∷◌, arith, length, max, ◌++◌, ◌≤◌, All, ok,
}
use cockroach_chat.Platform.Samples.{sixty_thousandths}
use cockroach_chat.Config.{defaults}
use cockroach_chat.OrdMap.Keys.{bytes_ord}
use cockroach_chat.Prelude.Bytes.{to_be}
use cockroach_chat.Frag.{split, chunks, chunks_fuel, fragments, fragment, new, Reassembler, ingest}
use cockroach_chat.Frag.Stored.{IsValid, IsSafe}
use cockroach_chat.Frag.Split.{contents, split_lem}
use cockroach_chat.Frag.Roundtrip.{packets, packets-split}
use cockroach_chat.Frag.Safety.{ingest-IsSafe}

-- A message of two chunks, of which the first has come.
abbrev half : Reassembler ℕ
half = record {
  slots =
      (
        1 ∷ 2 ∷ 3 ∷ 4 ∷ 5 ∷ 6 ∷ 7 ∷ 8 ∷ [],
        record {
          total = 2;
          received = 1;
          parts = some (65 ∷ 66 ∷ []) ∷ none ∷ [];
          bytes = 2;
          first_seen_ms = 40;
        },
      )
      ∷ [];
  cfg = record (defaults sixty_thousandths) { reassembly_slots = 3; reassembly_max_bytes = 16 };
}

half-IsValid : IsValid half
half-IsValid = record {
  bounded = omega arith;
  sorted = (tt, tt);
  partial = (
    record {
      lacking = omega arith;
      sized = refl;
      counted = refl;
      summed = refl;
      capped = omega arith;
    },
    tt,
  );
}

-- The second chunk of that message.
abbrev second : List ℕ
second = 2 ∷ 1 ∷ 2 ∷ 3 ∷ 4 ∷ 5 ∷ 6 ∷ 7 ∷ 8 ∷ 0 ∷ 1 ∷ 0 ∷ 2 ∷ 67 ∷ []

ingest-IsSafe_example :
    IsValid (ingest half second 50).0 × IsSafe (max 16 (length second)) (ingest half second 50).1
ingest-IsSafe_example = ingest-IsSafe half second 50 half-IsValid

-- A packet of 18 bytes, for a link that carries fragments of four.
abbrev packet : List ℕ
packet =
    10 ∷ 11 ∷ 12 ∷ 13 ∷ 14 ∷ 15 ∷ 16 ∷ 17 ∷ 18 ∷ 19 ∷ 20 ∷ 21 ∷ 22 ∷ 23 ∷ 24 ∷ 25 ∷ 26 ∷ 27 ∷ []

abbrev digest : List ℕ
digest = 1 ∷ 2 ∷ 3 ∷ 4 ∷ 5 ∷ 6 ∷ 7 ∷ 8 ∷ []

abbrev head : ℕ → List ℕ
head i = 2 ∷ 1 ∷ 2 ∷ 3 ∷ 4 ∷ 5 ∷ 6 ∷ 7 ∷ 8 ∷ 0 ∷ i ∷ 0 ∷ 5 ∷ []

abbrev frames : List (List ℕ)
frames =
    (head 0 ++ (10 ∷ 11 ∷ 12 ∷ 13 ∷ []))
    ∷ (head 1 ++ (14 ∷ 15 ∷ 16 ∷ 17 ∷ []))
    ∷ (head 2 ++ (18 ∷ 19 ∷ 20 ∷ 21 ∷ []))
    ∷ (head 3 ++ (22 ∷ 23 ∷ 24 ∷ 25 ∷ []))
    ∷ (head 4 ++ (26 ∷ 27 ∷ []))
    ∷ []

cuts : split packet digest 17 ≡ ok frames
unfolding split chunks chunks_fuel fragments fragment to_be
cuts = refl

split_lem_example : All (λ f. length f ≤ 17) frames × (contents frames ≡ packet)
split_lem_example = split_lem packet digest 17 frames refl cuts

-- The same packet for a link that carries one byte of it at a time, in 18 fragments.
abbrev one_byte : ℕ → List ℕ
one_byte i = 2 ∷ (digest ++ (0 ∷ i ∷ 0 ∷ 18 ∷ (10 + i) ∷ []))

abbrev many : List (List ℕ)
many =
    map one_byte
      (0 ∷ 1 ∷ 2 ∷ 3 ∷ 4 ∷ 5 ∷ 6 ∷ 7 ∷ 8 ∷ 9 ∷ 10 ∷ 11 ∷ 12 ∷ 13 ∷ 14 ∷ 15 ∷ 16 ∷ 17 ∷ [])

cuts_many : split packet digest 14 ≡ ok many
unfolding split chunks chunks_fuel fragments fragment to_be
cuts_many = refl

packets-split_example : packets (new (defaults sixty_thousandths)) many 40 ≡ packet ∷ []
unfolding defaults
packets-split_example =
    packets-split (defaults sixty_thousandths) packet digest 14 many 40 refl (omega arith) cuts_many
