-- ===== src/Mq/Streams.antt =====
-- Redis streams with one consumer group, as a parameter of pkg/mq/mq.go: for each stream the entries
-- that the group has not read yet and the ids that it has read and not acknowledged.
use text.Mathlib.Text.{◌==◌ as str_eq}
use go_shortvideo.Prelude.{
  ℕ, ◌^◌, ◌<◌, ◌≡◌, Bool, true, not, String, Option, List, [], ◌∷◌, ◌++◌, map, keep, if◌then◌else◌,
}
use go_shortvideo.Prelude.Int.{ℤ, pos}

-- A field of an entry, by the type that Go finds in the interface; `nil` where there is none. A
-- text is the list of its bytes.
pub data Value : Type 0 where
  bytes str : List ℕ → Value
  int64 int : ℤ → Value
  nil : Value

pub record Values : Type 0 where
  pub payload : Value
  pub attempts : Value
  pub source_id : Option String

-- `redis.XMessage`
pub record XMessage : Type 0 where
  pub id : String
  pub values : Values

-- What `XReadGroup` answers: `redis.Nil`, another error, or entries.
pub data Read : Type 0 where
  nothing failed : Read
  got : XMessage → List XMessage → Read

unfoldable pub payload_bytes : Value → List ℕ
payload_bytes (Value.bytes p) = p
payload_bytes (Value.str p) = p
payload_bytes (Value.int64 n) = []
payload_bytes (Value.int n) = []
payload_bytes Value.nil = []

-- `sscan` is `fmt.Sscan` into an int64, with 0 where it fails.
unfoldable pub int64_value : (List ℕ → ℤ) → Value → ℤ
int64_value sscan (Value.int64 n) = n
int64_value sscan (Value.int n) = n
int64_value sscan (Value.str p) = sscan p
int64_value sscan (Value.bytes p) = pos 0
int64_value sscan Value.nil = pos 0

-- `kept` is the field that a reader finds where a writer gave one.
pub record Streams : Type 1 where
  pub State : Type 0
  pub waiting : String → State → List XMessage
  pub pending : String → State → List String
  pub next_id : String → State → String
  pub sscan : List ℕ → ℤ
  pub kept : Value → Value
  pub xadd : String → Values → State → Bool × State
  pub xack : String → String → State → Bool × State
  pub xread_group : ℕ → String → State → Read × State
  pub payload-kept : (p : List ℕ) → payload_bytes (kept (Value.bytes p)) ≡ p
  pub attempts-kept : (n : ℕ) → n < 2 ^ 63 → int64_value sscan (kept (Value.int64 (pos n))) ≡ pos n
  pub waiting-xadd :
      (stream other : String) (v : Values) (s : State)
      → (xadd stream v s).0 ≡ true
      → waiting other (xadd stream v s).1 ≡ (
          if str_eq stream other
          then waiting other s
            ++ (record {
              id = next_id stream s;
              values = record {
                payload = kept v.payload;
                attempts = kept v.attempts;
                source_id = v.source_id;
              };
            }
                ∷ [])
          else waiting other s)
  pub pending-xadd :
      (stream other : String) (v : Values) (s : State)
      → pending other (xadd stream v s).1 ≡ pending other s
  pub waiting-xack :
      (stream id other : String) (s : State) → waiting other (xack stream id s).1 ≡ waiting other s
  pub pending-xack :
      (stream id : String) (s : State)
      → (xack stream id s).0 ≡ true
      → pending stream (xack stream id s).1 ≡ keep (λ j. not (str_eq id j)) (pending stream s)
  pub nothing-xread_group :
      (n : ℕ) (stream : String) (s : State)
      → (xread_group n stream s).0 ≡ Read.nothing
      → waiting stream s ≡ []
  pub waiting-xread_group :
      (n : ℕ) (stream other : String) (s : State)
      → waiting other s ≡ (
          let answer = (xread_group n stream s).0 in
          let rest = waiting other (xread_group n stream s).1 in
          elim answer [
            | Read.nothing ↦ rest
            | Read.failed ↦ rest
            | Read.got m ms ↦ if str_eq stream other then (m ∷ ms) ++ rest else rest
          ])
  pub pending-xread_group :
      (n : ℕ) (stream : String) (s : State)
      → pending stream (xread_group n stream s).1 ≡ (elim (xread_group n stream s).0 [
        | Read.nothing ↦ pending stream s
        | Read.failed ↦ pending stream s
        | Read.got m ms ↦ pending stream s ++ map (λ (m : XMessage). m.id) (m ∷ ms)
      ])
