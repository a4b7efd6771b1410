-- ===== src/Metrics/Emit.antt =====
-- What the `WriteTo` methods of the metrics backends share: floats, an io.Writer, and the variables
-- `count` and `err`.
pub mod Walking
pub mod Folding
pub mod Feeding
use yoroi.Metrics.Space.{and_then}
use Prim.Native.String.{◌++◌ as join}
use yoroi.Prelude.{
  ℕ, ◌+◌, String, Option, none, some, List, [], ◌∷◌, ◌++◌, Bool, true, false, ◌||◌, if◌then◌else◌,
}

-- float64; `text` is the verb `%f`.
pub record Floats {ℓ} (F : Type ℓ) : Type ℓ where
  pub zero : F
  pub one : F
  pub plus : F → F → F
  pub less : F → F → Bool
  pub leq : F → F → Bool
  pub text : F → String

-- fmt.Fprintf of a text: how many bytes were written, and the error.
pub record IoWriter {ℓ} (W : Type ℓ) : Type ℓ where
  pub print : W → String → W × ℕ × Option String

-- A panic of the callback, such as one for an odd number of label values, ends `WriteTo`.
pub record Out {ℓ} (W : Type ℓ) : Type ℓ where
  pub w : W
  pub count : ℕ
  pub err : Option String
  pub panicked : Bool

abbrev pub is_some {ℓ} : {A : Type ℓ} → Option A → Bool
is_some none = false
is_some (some a) = true

module _ {ℓ} {W : Type ℓ} (io : IoWriter W) where
  abbrev pub printed : Out W → W × ℕ × Option String → Out W × Bool
  printed out (w', n, none) = (record out { w = w'; count = out.count + n; err = none }, true)
  printed out (w', n, some e) = (record out { w = w'; err = some e }, false)

  -- Writes a line, and says whether to go on. `none` is a panic while the line is made.
  unfoldable pub emit : Option String → Out W → Out W × Bool
  emit none out = (record out { panicked = true }, false)
  emit (some line) out = printed out (io.print out.w line)

  -- One line for each value.
  unfoldable pub emit_all : List (Option String) → Out W → Out W × Bool
  emit_all [] out = (out, true)
  emit_all (line ∷ lines) out = and_then (emit line out) (emit_all lines)

module _ {ℓ} {W : Type ℓ} where
  abbrev pub start : W → Out W
  start w = record { w = w; count = 0; err = none; panicked = false }

module _ {ℓ} {F : Type ℓ} (fl : Floats F) where
  abbrev pub add_up : F → List F → F
  add_up v [] = v
  add_up v (f ∷ fs) = add_up (fl.plus v f) fs

  -- `sum` of dogstatsd, influxstatsd and statsd
  abbrev pub sum : List F → F
  sum a = add_up fl.zero a

  -- `sampling` of dogstatsd, influxstatsd and statsd
  abbrev pub sampling : F → String
  sampling r = if fl.less r fl.one then join "|@" (fl.text r) else ""

-- The object whose metrics are written, and what `WriteTo` returns.
pub record Writing {ℓ} (D W : Type ℓ) : Type ℓ where
  pub d : D
  pub out : Out W

module _ {ℓ} {D W : Type ℓ} where
  -- `if err != nil` with its return; a panic goes further as well.
  abbrev pub unless_failed : (Writing D W → Writing D W) → Writing D W → Writing D W
  unless_failed next x = if x.out.panicked || is_some x.out.err then x else next x

  abbrev pub unless_panicked : (Writing D W → Writing D W) → Writing D W → Writing D W
  unless_panicked next x = if x.out.panicked then x else next x
