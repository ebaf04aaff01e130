-- ===== src/Host.antt =====
-- What the agent does to its host. Every effect is a `Call`; what the operating system, the
-- database and the PowerDNS server answer is a parameter, `Env`: any function of the calls made so
-- far. Code is a function of the calls so far, newest first, and gives a result and more calls.
-- An error is kept as Go builds it: a format, its arguments and the wrapped error.
pub mod Rules
pub mod Success
pub mod Disk
use gratis.Base.{
  ◌⊎◌, inl, inr, if◌then◌else◌, ℕ, String, ◌≡◌, refl, Option, none, some, List, [], ◌∷◌, ◌++◌, Bool,
  true, false,
}
use gratis.Text.{Str, bytes, format}

pub data Error : Type 0 where
  -- fmt.Errorf without %w
  errorf : String → List Str → Error
  -- fmt.Errorf with %w: the arguments before it, the wrapped error, the arguments behind it
  wrapf : String → List Str → Error → List Str → Error
  -- an error for which os.IsNotExist holds
  not_exist : Str → Error
  -- sql.ErrNoRows
  no_rows : Error
  -- any other error from outside, with its text
  external : Str → Error

-- err.Error()
unfoldable pub message : Error → Str
unfolding format bytes
message (errorf f args) = format (bytes f) args
message (wrapf f before e after) = format (bytes f) (before ++ message e ∷ after)
message (not_exist s) = s
message no_rows = bytes "sql: no rows in result set"
message (external s) = s

-- os.IsNotExist: it does not unwrap.
abbrev pub is_not_exist : Error → Bool
is_not_exist (not_exist s) = true
is_not_exist _ = false

abbrev pub is_no_rows : Error → Bool
is_no_rows no_rows = true
is_no_rows _ = false

pub data Result (A : Type 0) : Type 0 where
  ok : A → Result A
  err : Error → Result A

pub Result-cases :
    {A : Type 0} (r : Result A) → ((e : Error) × (r ≡ err e)) ⊎ ((a : A) × (r ≡ ok a))
Result-cases (err e) = inl (e, refl)
Result-cases (ok a) = inr (a, refl)

-- An argument bound to a `?` of an SQL statement.
pub data Bound : Type 0 where
  text : Str → Bound
  number : ℕ → Bound

-- What `json.Marshal` is given, as the value that it writes.
mutual
  pub data Json : Type 0 where
    text : Str → Json
    number : ℕ → Json
    bool : Bool → Json
    array : Items → Json
    object : Fields → Json

  pub data Items : Type 0 where
    none_left : Items
    item : Json → Items → Items

  pub data Fields : Type 0 where
    end : Fields
    field : Str → Json → Fields → Fields

pub data Call : Type 0 where
  -- os.MkdirAll, os.WriteFile, os.Remove, os.RemoveAll, os.Symlink, os.Chmod, os.ReadFile
  mkdir_all : Str → ℕ → Call
  write_file : Str → Str → ℕ → Call
  remove remove_all : Str → Call
  symlink : Str → Str → Call
  chmod : Str → ℕ → Call
  read_file : Str → Call
  -- os.OpenFile(path, O_APPEND|O_CREATE|O_WRONLY, perm), and a write to the file it opened
  open_append : Str → ℕ → Call
  append_string : Str → Str → Call
  -- exec.Command(name, args...), run to its end
  run : Str → List Str → Call
  -- sql.Open, and the Ping of the connection that it gives
  sql_open : Str → Call
  sql_ping : Call
  -- sql.DB's Exec, and QueryRow with Scan of one number
  sql_exec sql_query : Str → List Bound → Call
  -- http.Client's Do: method, URL, headers, body
  http : Str → Str → List (Str × Str) → Option Json → Call

-- What a call gives back; of `text` and `number` only what the call has is read: a file's bytes,
-- a program's output, a response's body; a scanned column, a response's status code.
pub record Reply : Type 0 where
  pub text : Str
  pub number : ℕ
  pub failure : Option Error

abbrev pub Trace : Type 0
Trace = List Call

abbrev pub Env : Type 0
Env = Trace → Call → Reply

-- A Go function that makes calls and returns a value or an error.
abbrev pub M : Type 0 → Type 0
M A = Trace → Result A × Trace

unfoldable pub pure : {A : Type 0} → A → M A
pure a t = (ok a, t)

unfoldable pub raise : {A : Type 0} → Error → M A
raise e t = (err e, t)

-- The error as a value, where the code goes on after it.
unfoldable pub attempt : {A : Type 0} → M A → M (Result A)
attempt m t = let (r, t') = m t in (ok r, t')

abbrev pub map_error : {A : Type 0} → (Error → Error) → Result A → Result A
map_error f (ok a) = ok a
map_error f (err e) = err (f e)

-- if err := m; err != nil { return f(err) }
unfoldable pub wrap : {A : Type 0} → (Error → Error) → M A → M A
wrap f m t = let (r, t') = m t in (map_error f r, t')

abbrev pub forgive : (Error → Error) → Result (Unit {0}) → Result (Unit {0})
forgive f (ok u) = ok u
forgive f (err e) = if is_not_exist e then ok tt else err (f e)

-- if err := m; err != nil && !os.IsNotExist(err) { return f(err) }
unfoldable pub unless_missing : (Error → Error) → M (Unit {0}) → M (Unit {0})
unless_missing f m t = let (r, t') = m t in (forgive f r, t')

-- The call is made, and its failure is a value of the reply.
unfoldable pub ask : Env → Call → M Reply
ask env c t = (ok (env t c), c ∷ t)

abbrev pub raised : Reply → Option Error → Result Reply
raised r none = ok r
raised r (some e) = err e

-- The call is made, and its failure is the error.
unfoldable pub perform : Env → Call → M Reply
perform env c t = (raised (env t c) (env t c).failure, c ∷ t)

abbrev pub raised_with_output : String → List Str → Reply → Option Error → Result (Unit {0})
raised_with_output f before r none = ok tt
raised_with_output f before r (some e) = err (wrapf f before e (r.text ∷ []))

-- A program whose failure is reported with its output, behind the error: "…%w…%s".
unfoldable pub run_with_output : Env → String → List Str → Str → List Str → M (Unit {0})
run_with_output env f before name args t = (
  raised_with_output f before (env t (run name args)) (env t (run name args)).failure,
  run name args ∷ t,
)

abbrev pub continue : {A B : Type 0} → Result A → (A → M B) → M B
continue (ok a) f t = f a t
continue (err e) f t = (err e, t)

infixl 5 ◌>>=◌ ◌>>◌
-- Opening this opens the operations above it.
unfoldable pub ◌>>=◌ : {A B : Type 0} → M A → (A → M B) → M B
unfolding pure raise attempt wrap unless_missing ask perform run_with_output
◌>>=◌ m f t = let (r, t') = m t in continue r f t'

abbrev pub ◌>>◌ : {A B : Type 0} → M A → M B → M B
m >> n = m >>= λ _. n

abbrev pub done : {A : Type 0} → M A → M (Unit {0})
done m = m >> pure tt

message_tests :
    message (wrapf "useradd: %w: %s" [] (external (bytes "exit status 1")) (bytes "x" ∷ []))
    ≡ bytes "useradd: exit status 1: x"
unfolding message
message_tests = refl
