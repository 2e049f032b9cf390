-- ===== src/Context/Resume.antt =====
-- drivers/scheduler.nasm: a task that is switched away from comes back as it was.
use neko_os_c.Prelude.{ℕ, ◌+◌, ◌^◌, ◌≤◌, ◌<◌, ◌≡◌, ◌≢◌, ◌⊎◌, refl, sym, ap, ◌∙◌, arith}
use neko_os_c.Mem.{poke}
use neko_os_c.Sched.{Task, put}
use neko_os_c.Sched.Queue.{put_self, put-other}
use neko_os_c.Context.{Regs, Machine, below, above, save, restore, context_switch}

-- The six saved registers, from the address `b` on.
pub framed : ℕ → Regs → (ℕ → ℕ) → ℕ → ℕ
unfolding poke
framed b r w0 =
    let w1 = poke w0 (b + 40) r.rbp in
    let w2 = poke w1 (b + 32) r.rbx in
    let w3 = poke w2 (b + 24) r.r12 in
    let w4 = poke w3 (b + 16) r.r13 in let w5 = poke w4 (b + 8) r.r14 in poke w5 b r.r15

save-framed :
    (m : Machine) (b : ℕ)
    → m.rsp ≡ b + 48
    → b + 56 ≤ 2 ^ 64
    → save m ≡ record m { rsp = b; words = framed b m.regs m.words }
unfolding save framed
save-framed m b e high =
    let e1 : below (b + 48) ≡ b + 40 = omega arith in
    let e2 : below (b + 40) ≡ b + 32 = omega arith in
    let e3 : below (b + 32) ≡ b + 24 = omega arith in
    let e4 : below (b + 24) ≡ b + 16 = omega arith in
    let e5 : below (b + 16) ≡ b + 8 = omega arith in
    let e6 : below (b + 8) ≡ b = omega arith in rw (e, e1, e2, e3, e4, e5, e6)

pub framed-other :
    (b : ℕ) (r : Regs) (w : ℕ → ℕ) (a : ℕ) → (a < b) ⊎ (b + 48 ≤ a) → framed b r w a ≡ w a
unfolding framed
framed-other b r w a apart = ground arith

-- What lies in the frame.
pub record Frame (b : ℕ) (r : Regs) (ret : ℕ) (w : ℕ → ℕ) : Type 0 where
  pub r15 : w b ≡ r.r15
  pub r14 : w (b + 8) ≡ r.r14
  pub r13 : w (b + 16) ≡ r.r13
  pub r12 : w (b + 24) ≡ r.r12
  pub rbx : w (b + 32) ≡ r.rbx
  pub rbp : w (b + 40) ≡ r.rbp
  pub back : w (b + 48) ≡ ret

framed-Frame : (b : ℕ) (r : Regs) (w : ℕ → ℕ) → Frame b r (w (b + 48)) (framed b r w)
unfolding framed
framed-Frame b r w = record {
  r15 = ground arith;
  r14 = ground arith;
  r13 = ground arith;
  r12 = ground arith;
  rbx = ground arith;
  rbp = ground arith;
  back = ground arith;
}

restore-Frame :
    (b : ℕ) (r : Regs) (ret : ℕ) (m : Machine)
    → b + 56 < 2 ^ 64
    → m.rsp ≡ b
    → Frame b r ret m.words
    → restore m ≡ record m { regs = r; rip = ret; rsp = b + 56 }
unfolding restore
restore-Frame b r ret m high e f =
    let e1 : above b ≡ b + 8 = omega arith in
    let e2 : above (b + 8) ≡ b + 16 = omega arith in
    let e3 : above (b + 16) ≡ b + 24 = omega arith in
    let e4 : above (b + 24) ≡ b + 32 = omega arith in
    let e5 : above (b + 32) ≡ b + 40 = omega arith in
    let e6 : above (b + 40) ≡ b + 48 = omega arith in
    let e7 : above (b + 48) ≡ b + 56 = omega arith in
    rw (e, e1, e2, e3, e4, e5, e6, e7, f.r15, f.r14, f.r13, f.r12, f.rbx, f.rbp, f.back)

-- The switch in two steps: what is saved, and where the other task's frame is looked for.
switch-eq :
    (old new : ℕ) (m : Machine) (b : ℕ)
    → m.rsp ≡ b + 48
    → b + 56 ≤ 2 ^ 64
    → context_switch old new m
      ≡ restore (record m {
        rsp = (put m.tasks old (record (m.tasks old) { rsp = b }) new).rsp;
        words = framed b m.regs m.words;
        tasks = put m.tasks old (record (m.tasks old) { rsp = b });
      })
unfolding context_switch
switch-eq old new m b base high = rw (save-framed m b base high)

restore-keeps : (m : Machine) → ((restore m).words ≡ m.words) × ((restore m).tasks ≡ m.tasks)
unfolding restore
restore-keeps m = (refl, refl)

module _ (old new : ℕ) (m : Machine) (b : ℕ) (base : m.rsp ≡ b + 48) (high : b + 56 ≤ 2 ^ 64) where
  -- What a switch away from `old` leaves for it.
  switched-rsp : ((context_switch old new m).tasks old).rsp ≡ b
  switched-rsp =
      rw (switch-eq old new m b base high, (restore-keeps _).1)
        (ap (λ (t : Task). t.rsp) (put_self m.tasks old (record (m.tasks old) { rsp = b })))

  pub switched-words : (a : ℕ) → (context_switch old new m).words a ≡ framed b m.regs m.words a
  switched-words a = rw (switch-eq old new m b base high, (restore-keeps _).0)

pub Frame-same :
    (b : ℕ) (r : Regs) (ret : ℕ) (w v : ℕ → ℕ)
    → ((a : ℕ) → b ≤ a → a < b + 56 → v a ≡ w a)
    → Frame b r ret w
    → Frame b r ret v
Frame-same b r ret w v same f = record {
  r15 = same b (omega arith) (omega arith) ∙ f.r15;
  r14 = same (b + 8) (omega arith) (omega arith) ∙ f.r14;
  r13 = same (b + 16) (omega arith) (omega arith) ∙ f.r13;
  r12 = same (b + 24) (omega arith) (omega arith) ∙ f.r12;
  rbx = same (b + 32) (omega arith) (omega arith) ∙ f.rbx;
  rbp = same (b + 40) (omega arith) (omega arith) ∙ f.rbp;
  back = same (b + 48) (omega arith) (omega arith) ∙ f.back;
}

apart_at : (a c b : ℕ) → b ≤ a → a < b + 56 → (c + 48 ≤ b) ⊎ (b + 56 ≤ c) → (a < c) ⊎ (c + 48 ≤ a)
apart_at a c b low up apart = ground arith

-- A switch to a task whose frame, at `b`, lies away from the one that is saved.
pub switch-Frame :
    (other task : ℕ) (n : Machine) (b c : ℕ) (r : Regs) (ret : ℕ)
    → other ≢ task
    → n.rsp ≡ c + 48
    → c + 56 ≤ 2 ^ 64
    → b + 56 < 2 ^ 64
    → (c + 48 ≤ b) ⊎ (b + 56 ≤ c)
    → (n.tasks task).rsp ≡ b
    → Frame b r ret n.words
    → ((context_switch other task n).regs ≡ r)
      × ((context_switch other task n).rip ≡ ret)
      × ((context_switch other task n).rsp ≡ b + 56)
switch-Frame other task n b c r ret ne base room high apart at f =
    let t : Task = record (n.tasks other) { rsp = c } in
    let seen : (put n.tasks other t task).rsp ≡ b =
      ap (λ (k : Task). k.rsp) (put-other n.tasks other task t λ e. ne (sym e)) ∙ at in
    let found : Frame b r ret (framed c n.regs n.words) =
      Frame-same b r ret n.words (framed c n.regs n.words)
        (λ a low up. framed-other c n.regs n.words a (apart_at a c b low up apart)) f in
    let e = switch-eq other task n c base room ∙ restore-Frame b r ret _ high seen found in
    (ap (λ (k : Machine). k.regs) e, ap (λ (k : Machine). k.rip) e, ap (λ (k : Machine). k.rsp) e)

-- The registers, the place to return to and the stack pointer of the caller of the switch, whose
-- return address has been popped.
abbrev pub Resumed : Machine → Machine → Type 0
Resumed m n = (n.regs ≡ m.regs) × (n.rip ≡ m.words m.rsp) × (n.rsp ≡ m.rsp + 8)

-- A task that is switched away from in `m` comes back as it was: in any later state `n` in which its
-- saved stack pointer and its seven words of stack are untouched, and whose own seven words lie
-- elsewhere, a switch to it restores the six registers, the stack pointer and the place to return to.
pub context_switch-Resumed :
    (old new other b c : ℕ) (m n : Machine)
    → m.rsp ≡ b + 48
    → b + 56 < 2 ^ 64
    → other ≢ old
    → (n.tasks old).rsp ≡ ((context_switch old new m).tasks old).rsp
    → ((a : ℕ) → b ≤ a → a < b + 56 → n.words a ≡ (context_switch old new m).words a)
    → n.rsp ≡ c + 48
    → c + 56 ≤ 2 ^ 64
    → (c + 48 ≤ b) ⊎ (b + 56 ≤ c)
    → Resumed m (context_switch other old n)
context_switch-Resumed old new other b c m n base high ne same_rsp same nbase room apart =
    let le : b + 56 ≤ 2 ^ 64 = omega arith in
    let f : Frame b m.regs (m.words (b + 48)) n.words =
      Frame-same b m.regs (m.words (b + 48)) (framed b m.regs m.words) n.words
        (λ a low up. same a low up ∙ switched-words old new m b base le a)
        (framed-Frame b m.regs m.words) in
    let (regs, rip, rsp) =
      switch-Frame other old n b c m.regs (m.words (b + 48)) ne nbase room high apart
        (same_rsp ∙ switched-rsp old new m b base le) f in
    (regs, rw base rip, rsp ∙ omega arith)
