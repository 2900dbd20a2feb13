-- ===== src/Terminal/Switching.antt =====
-- What `terminal_load` of student-distrib/terminal.c brings back of what `terminal_save` kept.
use apoll_os.Prelude.{
  ℕ, ◌+◌, ◌*◌, ◌≤◌, bit_or, ◌≡◌, refl, ◌∙◌, arith, some, List, ◌++◌, length, get_elem?, set, take,
  drop, take-append, length-append, length-take, length-drop, lt_of_get_elem?, get_elem?-set_self,
  store-set, ◌>>=◌, u32,
}
use mathlib.Core.Path.{subst}
use apoll_os.CString.Copy.{memcpy_lem}
use apoll_os.Screen.{set_screen_pos, update_cursor_loc}
use apoll_os.Paging.{remap, refresh_tbl}
use apoll_os.Kernel.{Kernel, Terminal}
use apoll_os.Execute.{stack_top}
use apoll_os.Terminal.{index_of, terminal_save, terminal_load, show_terminal}

-- What `terminal_save` puts into the terminal's record.
abbrev pub saved : Terminal → Kernel → Terminal
saved t k = record t {
  esp = k.esp;
  ebp = k.ebp;
  key_buffer_pos = k.keyboard.key_buffer_pos;
  pos_x = k.screen.screen_x;
  pos_y = k.screen.screen_y;
}

-- The terminal `t` stands in the table and has a page that is whole, as the screen's is.
pub record IsKept (k : Kernel) (term : ℕ) (t : Terminal) (page : List ℕ) : Type 0 where
  pub entry : get_elem? k.terminal (index_of term) ≡ some t
  pub kept : get_elem? k.term_mem t.vid_mem ≡ some page
  pub page_size : length page ≡ 4096
  pub video_size : length k.screen.video ≡ 4096
  pub directory : length k.paging.page_dir ≡ 1024

pub terminal_save_lem :
    (k : Kernel) (term : ℕ) (t : Terminal) (page : List ℕ)
    → IsKept k term t page
    → terminal_save term k
      ≡ some (record k {
        terminal = set k.terminal (index_of term) (saved t k);
        term_mem = set k.term_mem t.vid_mem (take 4000 k.screen.video ++ drop 4000 page);
      })
unfolding terminal_save
terminal_save_lem k term t page h = rw (
  h.entry,
  h.kept,
  memcpy_lem 4000 page k.screen.video (omega (arith, h.page_size)) (omega (arith, h.video_size)),
)

-- The two screens show the same, with the cursor at the same place, and the line goes on at the
-- same position and the processor on the same stack.
pub record Restored (k k' : Kernel) (term : ℕ) : Type 0 where
  pub shown : take 4000 k'.screen.video ≡ take 4000 k.screen.video
  pub column : k'.screen.screen_x ≡ k.screen.screen_x
  pub line : k'.screen.screen_y ≡ k.screen.screen_y
  pub buffer : k'.keyboard.key_buffer ≡ some (index_of term)
  pub position : k'.keyboard.key_buffer_pos ≡ k.keyboard.key_buffer_pos
  pub stack : k'.esp ≡ k.esp
  pub frame : k'.ebp ≡ k.ebp

terminal_load_lem :
    (k2 k : Kernel) (term : ℕ) (t : Terminal) (page : List ℕ)
    → IsKept k2 term (saved t k) (take 4000 k.screen.video ++ drop 4000 page)
    → 4000 ≤ length k.screen.video
    → (k3 : Kernel) × (terminal_load term k2 ≡ some k3) × Restored k k3 term
unfolding terminal_load show_terminal remap set_screen_pos update_cursor_loc
terminal_load_lem k2 k term t page h long =
    let kept = take 4000 k.screen.video ++ drop 4000 page in
    let size : length (take 4000 k.screen.video) ≡ 4000 =
      omega (arith, length-take 4000 k.screen.video) in
    let front : take 4000 kept ≡ take 4000 k.screen.video =
      subst (λ n. take n kept ≡ take 4000 k.screen.video) size
        (take-append (take 4000 k.screen.video) (drop 4000 page)) in
    let whole : take 4000 (take 4000 kept ++ drop 4000 k2.screen.video) ≡ take 4000 k.screen.video =
      rw front (
        subst
          (λ n.
            take n (take 4000 k.screen.video ++ drop 4000 k2.screen.video)
            ≡ take 4000 k.screen.video)
          size (take-append (take 4000 k.screen.video) (drop 4000 k2.screen.video))) in
    let entry = bit_or (u32 (0x800000 + t.term_pid * 4194304)) 0x87 in
    let at = set_screen_pos k.screen.screen_x k.screen.screen_y k2.screen in
    let k3 = record k2 {
      paging = refresh_tbl (record k2.paging { page_dir = set k2.paging.page_dir 32 entry });
      tss_ss0 = 0x18;
      tss_esp0 = stack_top t.term_pid;
      screen = record (update_cursor_loc k.screen.screen_x k.screen.screen_y at) {
        video = take 4000 kept ++ drop 4000 k2.screen.video;
      };
      keyboard = record k2.keyboard {
        key_buffer = some (index_of term);
        key_buffer_pos = k.keyboard.key_buffer_pos;
      };
      esp = k.esp;
      ebp = k.ebp;
    } in
    (
      k3,
      rw (
        h.entry,
        store-set k2.paging.page_dir 32 entry (omega (arith, h.directory)),
        h.kept,
        memcpy_lem 4000 k2.screen.video kept (omega (arith, h.video_size))
            (omega (arith, h.page_size)),
      ),
      record {
        shown = whole;
        column = refl;
        line = refl;
        buffer = refl;
        position = refl;
        stack = refl;
        frame = refl;
      },
    )

-- For a terminal in the table whose page, like the video page, has 4096 bytes, and with a whole
-- page directory: `terminal_save`, then anything that leaves the terminal's record and page alone
-- and keeps the sizes of the video page and the page directory, then `terminal_load` succeeds, and
-- brings back the 4000 bytes of the screen, the cursor, the position in the line, and the stack
-- and frame pointers; the key buffer is that terminal's.
pub terminal_load-terminal_save :
    (other : Kernel → Kernel) (k : Kernel) (term : ℕ) (t : Terminal) (page : List ℕ)
    → IsKept k term t page
    → ((k' : Kernel)
        → get_elem? (other k').terminal (index_of term) ≡ get_elem? k'.terminal (index_of term))
    → ((k' : Kernel) → get_elem? (other k').term_mem t.vid_mem ≡ get_elem? k'.term_mem t.vid_mem)
    → ((k' : Kernel) → length (other k').screen.video ≡ length k'.screen.video)
    → ((k' : Kernel) → length (other k').paging.page_dir ≡ length k'.paging.page_dir)
    → (k3 : Kernel) × ((terminal_save term k >>= λ k1. terminal_load term (other k1)) ≡ some k3)
      × Restored k k3 term
terminal_load-terminal_save other k term t page h entry mem video dir =
    let page' = take 4000 k.screen.video ++ drop 4000 page in
    let k1 = record k {
      terminal = set k.terminal (index_of term) (saved t k);
      term_mem = set k.term_mem t.vid_mem page';
    } in
    let kept : IsKept (other k1) term (saved t k) page' = record {
      entry =
          entry k1
          ∙ get_elem?-set_self k.terminal (index_of term) (saved t k)
              (lt_of_get_elem? k.terminal (index_of term) t h.entry);
      kept =
          mem k1
          ∙ get_elem?-set_self k.term_mem t.vid_mem page'
              (lt_of_get_elem? k.term_mem t.vid_mem page h.kept);
      page_size = omega (
        arith,
        h.page_size,
        h.video_size,
        length-append (take 4000 k.screen.video) (drop 4000 page),
        length-take 4000 k.screen.video,
        length-drop 4000 page,
      );
      video_size = video k1 ∙ h.video_size;
      directory = dir k1 ∙ h.directory;
    } in
    let (k3, run, restored) =
      terminal_load_lem (other k1) k term t page kept (omega (arith, h.video_size)) in
    (k3, rw (terminal_save_lem k term t page h) run, restored)
