-- ===== src/Lib.antt =====
-- Crusader OS, a hobby operating system in C for a 32-bit PC: a model of its parts, and what holds of it.
--
-- The parts and the files that model them (paths of the sources from the repository's root):
--   Disk       the sectors of an ATA drive and its registers               fs.c
--   Fs         the file system                                            fs.c, fs.h
--     Fs/State    the structures and globals; operations take the globals and return them
--     Fs/Inode    inodes, packed into 128 bytes, and their table
--     Fs/Bitmaps  the bitmaps of blocks and inodes, their allocation, saving and loading
--     Fs/Dir      directories
--     Fs/Blocks   the block map of a file (get_physical_block, free_indirect_tree)
--     Fs/File     fs_read, fs_write, fs_create_file, fs_delete_file, fs_cd, fs_find_by_tag
--     Fs/Format   format_fs, qformat_fs, init_fs and the search for drives
--   Text       C strings and the conversions of numbers                   string.c
--   Division   the 64-bit division that the compiler calls                libdiv.c
--   Pmm        the allocator of page frames                               pmm.c
--   Paging     page tables                                                paging.c
--   Task       tasks and the switch in the timer interrupt                task.c
--   Rtc        the real-time clock                                        rtc.c
--   Keyboard   scancodes                                                  bioskbd.c
--   Terminal   the command line and the dispatch of commands              terminal.c
--   Console    printing on the text console, status lines, notes          klog.c
--   Templar    the interpreter of the scripting language                 templar.c, templar.h
--     Templar/Value, Templar/Word  values, strings, and the arithmetic of int32_t
--     Templar/State    the state; a step returns its result with the state, or why there is none
--     Templar/Vars     templar_set_var, templar_get_var
--     Templar/Lexer    tpl_lexer; Lexer/Spelling has the texts of tokens that it is compared with
--     Templar/Expr     tpl_primary to tpl_expr; Expr/Tree and Expr/Source have the trees and texts that they
--                      are compared with
--     Templar/Builtin  tpl_call_builtin, one definition for each function of the language
--     Templar/Exec     statements, blocks, templar_run, templar_run_string
--     Templar/Load     templar_load_file
--     Templar/Sound, Templar/Faults  what a run keeps, and loops that do not end
--   Vesa       pixels, rectangles, glyphs                                 vesa.c
--   Bits, Bitmap  single bits of words, and bitmaps of such words, for Fs and Pmm
--   Base       names shared by all; Tests, Fs/Tests, Templar/Tests, Templar/Tests/Source  runs at concrete inputs
--
-- How they interact: Fs works on the sectors of Disk; Task takes stacks from Pmm; Terminal compares names with strcmp
-- of Text and prints on the console; Templar reads programs from Fs; Console, Terminal and Templar
-- return what they ask of the rest as lists of events.
--
-- Conventions. A number is a ℕ; where the source's type would wrap, the wrap is written out (`% 2 ^ 32`). An array is a
-- function from its index, or a list where its length matters. A function of the source keeps its name; its loops are
-- functions that take the number of rounds left, as many as the loop's bound allows. Other loops run on fuel: fs_read and
-- fs_write have one round for each byte and move at least one in each; the wait for the clock ends when the hardware is
-- ready; a format has one round for each of its characters; a 64-bit number has at most 20 decimal digits, and an int
-- at most 32 digits in any base. The fuel of Templar bounds both the depth of parentheses and blocks and the rounds of each
-- loop; that of its lexer is one more than the bytes of the program, and each round takes a byte. Failure is `none`,
-- or the 0 of the source.
--
-- Parameters: the answers of drives to a probe, the registers of the clock, the scancodes, the names of the commands,
-- the font, where the console leaves the cursor of a Templar program, and the strings at addresses.
--
-- Not modelled: port access and status polling, interrupts and assembly, the start of the kernel, sound and bus,
-- the shell commands, the fixed pictures on the screen, and superblocks with more blocks than the bitmap in memory has
-- bits, which formatting never writes. Of Templar, tpl_parse_color, which nothing calls.
pub mod Base
pub mod Bitmap
pub mod Bits
pub mod Console
pub mod Disk
pub mod Division
pub mod Fs
pub mod Keyboard
pub mod Paging
pub mod Pmm
pub mod Rtc
pub mod Task
pub mod Templar
pub mod Terminal
pub mod Tests
pub mod Text
pub mod Vesa
