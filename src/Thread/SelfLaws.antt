-- ===== src/Thread/SelfLaws.antt =====
-- ccthread_self marks the struct that it makes, so that ccthread_join and ccthread_detach refuse it.
use ccthread.Prelude.{
  ℕ, ◌≡◌, refl, ◌∙◌, Bool, true, false, arith, suc, if◌then◌else◌, ◌⊎◌, inl, inr,
}
use ccthread.Types.{Platform, msvc, mingw, apple, linux, bsd, netbsd, solaris, posix}
use ccthread.External.{
  Env, World, Call, Heap, is_self, gettid, pthread_self, macos_threadid, macos_threadid_rc, handle,
  store, call, alloc, free, pure, ◌>>=◌, ◌>>◌, duplicated_handle, duplicate_handle,
  get_current_thread, get_current_process,
}
use ccthread.Thread.Create.{os_gettid, ccthread_gettid}
use ccthread.Thread.Identity.{mark_self, cached, fill_windows, fill_posix, ccthread_self}

-- `is_self` is written by nobody but ccthread_self.
abbrev pub KeepsSelf : Env → Type 0
KeepsSelf env = (n : ℕ) (c : Call) (h : Heap) (p : ℕ) → env.meddle n c h p is_self ≡ h p is_self

gettid_keeps :
    (platform : Platform) (p : ℕ) (env : Env) (w : World)
    → KeepsSelf env
    → w.heap p is_self ≡ 1
    → (os_gettid platform env w).1.heap p is_self ≡ 1
unfolding os_gettid
gettid_keeps apple p env w k h =
    let t = w.time in
    let h' = env.meddle t macos_threadid_rc w.heap in
    ground (arith, k t macos_threadid_rc w.heap p, k (suc t) macos_threadid h' p)
gettid_keeps netbsd p env w k h = k w.time pthread_self w.heap p ∙ h
gettid_keeps solaris p env w k h = k w.time pthread_self w.heap p ∙ h
gettid_keeps posix p env w k h = k w.time pthread_self w.heap p ∙ h
gettid_keeps msvc p env w k h = k w.time gettid w.heap p ∙ h
gettid_keeps mingw p env w k h = k w.time gettid w.heap p ∙ h
gettid_keeps linux p env w k h = k w.time gettid w.heap p ∙ h
gettid_keeps bsd p env w k h = k w.time gettid w.heap p ∙ h

cached_keeps :
    (platform : Platform) (p : ℕ) (env : Env) (w : World)
    → KeepsSelf env
    → w.heap p is_self ≡ 1
    → (cached platform p env w).1.heap p is_self ≡ 1
unfolding cached ccthread_gettid
cached_keeps platform p env w k h = ground (arith, gettid_keeps platform p env w k h)

-- A result of ccthread_self is NULL or marked as such.
abbrev pub IsMarked : (ℕ × ℕ) × World → Type 0
IsMarked r = (r.0.0 ≡ 0) ⊎ (r.1.heap r.0.0 is_self ≡ 1)

posix-IsMarked :
    (platform : Platform) (p : ℕ) (env : Env) (w : World)
    → KeepsSelf env
    → w.heap p is_self ≡ 1
    → IsMarked (fill_posix platform p env w)
unfolding fill_posix cached
posix-IsMarked platform p env w k h =
    let (t, w₁) = call pthread_self env w in
    let w₂ = (store p handle t env w₁).1 in
    inr (cached_keeps platform p env w₂ k (ground (arith, h, k w.time pthread_self w.heap p)))

windows_chosen-IsMarked :
    (platform : Platform) (p : ℕ) (fails : Bool) (env : Env) (w : World)
    → KeepsSelf env
    → w.heap p is_self ≡ 1
    → IsMarked (
        (if fails
            then (do call (free p); pure (0, 0))
            else (do h ← call duplicated_handle; store p handle h; cached platform p))
          env w)
unfolding cached
windows_chosen-IsMarked platform p true env w k h = inl refl
windows_chosen-IsMarked platform p false env w k h =
    let (t, w₁) = call duplicated_handle env w in
    let w₂ = (store p handle t env w₁).1 in
    inr (cached_keeps platform p env w₂ k (ground (arith, h, k w.time duplicated_handle w.heap p)))

windows-IsMarked :
    (platform : Platform) (p : ℕ) (env : Env) (w : World)
    → KeepsSelf env
    → w.heap p is_self ≡ 1
    → IsMarked (fill_windows platform p env w)
unfolding fill_windows
windows-IsMarked platform p env w k h =
    let w₁ = (call get_current_thread env w).1 in
    let w₂ = (call get_current_process env w₁).1 in
    let w₃ = (call duplicate_handle env w₂).1 in
    windows_chosen-IsMarked platform p _ env w₃ k (
      k w₂.time duplicate_handle w₂.heap p
      ∙ k w₁.time get_current_process w₁.heap p
      ∙ k w.time get_current_thread w.heap p
      ∙ h)

mark_self-marked : (p : ℕ) (env : Env) (w : World) → (mark_self p env w).1.heap p is_self ≡ 1
unfolding mark_self
mark_self-marked p env w = ground arith

filled-IsMarked :
    (platform : Platform) (null windows : Bool) (p : ℕ) (env : Env) (w : World)
    → KeepsSelf env
    → IsMarked (
        (if null then pure (0, 0) else (do
          mark_self p
          if windows then fill_windows platform p else fill_posix platform p))
          env w)
filled-IsMarked platform true windows p env w k = inl refl
filled-IsMarked platform false true p env w k =
    windows-IsMarked platform p env (mark_self p env w).1 k (mark_self-marked p env w)
filled-IsMarked platform false false p env w k =
    posix-IsMarked platform p env (mark_self p env w).1 k (mark_self-marked p env w)

-- The result of ccthread_self in a thread that has no handle yet is NULL or a struct that is marked.
pub self-IsMarked :
    (platform : Platform) (has_tls : Bool) (env : Env) (w : World)
    → KeepsSelf env
    → IsMarked (ccthread_self platform has_tls 0 env w)
unfolding ccthread_self
self-IsMarked platform true env w k =
    let (p, w') = alloc env w in filled-IsMarked platform _ _ p env w' k
self-IsMarked platform false env w k = inl refl
