-- ===== src/Services/Flow.antt =====
-- Calls that change the memories and may raise: an exception leaves what was done before it.
use automem.Common.{List}
use automem.Http.{Fault, Result, ok, err}
use automem.Cache.{CacheRow}
use automem.Services.{Memories}

abbrev pub Flow : Type 0 → Type 0 → Type 0
Flow S T = Memories S → Result T × Memories S

infixl 5 ◌>>=◌ ◌>>◌
-- The rest is skipped after an exception.
unfoldable pub resume :
    {S T U : Type 0} → (T → Flow S U) → Result T × Memories S → Result U × Memories S
resume next (ok t, w) = next t w
resume next (err e, w) = (err e, w)

unfoldable pub ◌>>=◌ : {S T U : Type 0} → Flow S T → (T → Flow S U) → Flow S U
(call >>= next) w = resume next (call w)

unfoldable pub ◌>>◌ : {S T U : Type 0} → Flow S T → Flow S U → Flow S U
unfolding ◌>>=◌
call >> next = call >>= λ t. next

module _ {S : Type 0} where
  unfoldable pub give : {T : Type 0} → T → Flow S T
  give t w = (ok t, w)

  unfoldable pub raise : {T : Type 0} → Fault → Flow S T
  raise e w = (err e, w)

  unfoldable pub recovered :
      {T : Type 0} → Flow S (Unit {0}) → Result T × Memories S → Result T × Memories S
  recovered handler (ok t, w) = (ok t, w)
  recovered handler (err e, w) = (handler >>= λ u. raise e) w

  -- `try: call` / `except Exception: handler; raise`
  unfoldable pub on_error : {T : Type 0} → Flow S T → Flow S (Unit {0}) → Flow S T
  on_error call handler w = recovered handler (call w)

  -- A call of mem0.
  unfoldable pub ask : {T : Type 0} → (S → Result T × S) → Flow S T
  ask call w = let (r, held) = call w.held in (r, record w { held = held })

  -- A statement on `memory_cache`.
  unfoldable pub edit : (List CacheRow → List CacheRow) → Flow S (Unit {0})
  edit f w = (ok tt, record w { cache = f w.cache })
