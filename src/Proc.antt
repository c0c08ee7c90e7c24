-- ===== src/Proc.antt =====
-- Xv6/kernel/proc.c, the process table. A function that holds `wait_lock` or a `p->lock` throughout is
-- one step here. What it asks of the memory, file and inode code comes in as the result of that call.
-- `fork` is one step too: between its critical sections the new entry is in the state USED, which no
-- other code but `kill` acts on, and a `kill` there has the same effect behind `fork`. `exit` is one step
-- up to its call of `sched`: it may sleep while it closes its files, before it changes the table.
pub mod Table
pub mod Life
pub mod Loops
pub mod Scans
pub mod Effects
pub mod Reparent
pub mod Exit
pub mod Leaving
pub mod Begin
pub mod Forking
pub mod Wait
pub mod Reaping
pub mod Poison
pub mod Inv
pub mod Steady
pub mod Turnover
pub mod Placing
pub mod System
mod Tests
