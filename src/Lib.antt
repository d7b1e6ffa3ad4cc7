-- ===== src/Lib.antt =====
-- A model of the parts of this repository that carry its logic: a port to user space of the
-- Linux kernel's bit operations, bitmaps and containers. Numbers are the native natural
-- numbers; an `unsigned long` is a number below 2^64 and its wrap-around is written out; an
-- `int` of bitmap.c that can be negative is an integer over these numbers (Prelude/Ints). The
-- port is built with CONFIG_64BIT (porting.h), so BITS_PER_LONG is 64.
--
-- Prelude (with Prelude/Tests, Prelude/Ints, Prelude/Lists) passes on the library names,
-- Boolean tests and integers that all files share. Bits (with Bits/Split, Bits/Count) is the theory of the bits of a
-- number. Word holds the C operators on words and the mask macros of bitops.h and bitmap.h
-- (BIT_MASK, BIT_WORD, BITS_TO_LONGS, BITMAP_FIRST_WORD_MASK, BITMAP_LAST_WORD_MASK). Memory
-- is what an `unsigned long *` points into: a word at each word address; arrays that overlap
-- are arrays at nearby addresses.
--
-- Bitops models asm-generic/bitops/: Bitops/Ffs is __ffs.h, ffs.h and ffz.h; Bitops/Fls is
-- __fls.h, fls.h, fls64.h and fls_long of bitops.h; Bitops/Rotate is the rotations of
-- bitops.h; Bitops/Single is non-atomic.h and atomic.h, with the laws in Bitops/Single/Laws;
-- Bitops/Hweight is hweight.c and const_hweight.h, with Bitops/Hweight/Fields on sums of
-- neighbouring fields and Bitops/Hweight/Laws.
--
-- FindBit models find_bit.c and asm-generic/bitops/find.h, which call __ffs, __fls and ffz;
-- the children FindBit/Next, FindBit/First and FindBit/Last hold what the searches find.
--
-- Bitmap models bitmap.c: the operations stand in Bitmap, Bitmap/Count, Bitmap/Range and
-- Bitmap/Area; Bitmap/Loops, Bitmap/Pointwise and Bitmap/Masked carry the word loops to bits,
-- Bitmap/Store and Bitmap/Compare state what the operations do.
--
-- Log2 models log2.h, with the laws of ilog2 in Log2/Laws and those of the powers of two in
-- Log2/Powers, and Hash models hash.h. ListHead models the circular doubly linked lists of
-- list.h, on a store that gives the two fields of each address: ListHead/Chain is the shape of
-- a list and how it survives stores elsewhere, ListHead/Edit and ListHead/Replace are about
-- one entry at a time, ListHead/Cut about rotations and cuts, and ListHead/Splice about two
-- lists and about walks. Hlist models the hash lists of list.h, with the shape of a list in
-- Hlist/Chain and the operations in Hlist/Edit and Hlist/Insert. Rculist models rculist.h on
-- the store of ListHead: each function is the sequence of its stores, and a reader can stand
-- between any two of them. Rculist/Path is the way of a reader, Rculist/Publish and
-- Rculist/Runs say what one publishing store does to it, Rculist/Ends that the reader ends,
-- Rculist/Plan and Rculist/Laws apply this to the functions, and Rculist/Final is about the
-- list when all stores are made. HashTable models hashtable.h on Hlist and Hash, with
-- insertion and lookup in HashTable/Laws, removal in HashTable/Remove and the empty table in
-- HashTable/Init. Llist models llist.c and llist.h on the exchanges of asm-generic/cmpxchg.h
-- and cmpxchg-local.h, for one thread, with its theorems in Llist/Laws. The files named Tests
-- run the models on small inputs.
--
-- Rbtree models rbtree.h, rbtree_augmented.h and rbtree.c on a store that gives the fields of
-- each node, its parent and colour in one word. The mirrored branches of the code are one
-- definition with the side as a parameter. Rbtree/Shape says which tree a store holds, seen
-- whole or around a place in it; Rbtree/Rotate and Rbtree/Step are about the three cases of
-- __rb_insert; Rbtree/Fix is what its loop does to the tree (fix), with Rbtree/Fix/Mend and
-- Rbtree/Fix/Refine carrying the loop to it and Rbtree/Fix/Balance and Rbtree/Fix/Heights on
-- the order and the balance of the result; Rbtree/Insert puts this together for rb_link_node
-- and rb_insert_color. Rbtree/Walk holds rb_first, rb_last, rb_next, rb_prev, rb_replace_node
-- and the postorder, with Rbtree/Walk/Ends and Rbtree/Walk/Next on where the walks lead,
-- Rbtree/Walk/Postorder on the postorder, Rbtree/Walk/Loop on the loops that the walks make,
-- and Rbtree/Walk/Replace on a replacement; Rbtree/Adopt is about a child that gets another
-- parent. Rbtree/Erase holds rb_erase and what it calls. Rbtree/Erase/Turn and
-- Rbtree/Erase/Recolor are about the four cases of ____rb_erase_color, Rbtree/Erase/Loop about
-- a round of its loop and Rbtree/Erase/Rebalance about all of them; Rbtree/Erase/Descend finds
-- the successor, Rbtree/Erase/Span, Rbtree/Erase/Far, Rbtree/Erase/Splice and
-- Rbtree/Erase/Both put it in the node's place, Rbtree/Erase/Single is about a node with at
-- most one child, Rbtree/Erase/Done about the hole that is left, Rbtree/Erase/Order about the
-- sequence, and Rbtree/Erase/Whole, Rbtree/Erase/Remove and Rbtree/Erase/Locate put all this
-- together. Rbtree/Insert/Cached, Rbtree/Erase/Cached and Rbtree/Erase/First are about the
-- cached leftmost node. MyRbtree models myrbtree.h on these: MyRbtree/Descend is about
-- MY_RB_TREE_INSERT, MyRbtree/Find about MY_RB_TREE_FIND, MyRbtree/Visit about the loops over
-- a tree, and MyRbtree/Sort about an insertion and a loop together.
--
-- Loops that run over the words of a bitmap are recursion on the number of words left. The
-- loops whose end depends on what they find take fuel: a search of n bits gets n/64 + 1 or
-- n/64 + 2 rounds, because each round moves on by one word; a range of n bits gets n/64 + 2;
-- the search for a free area of a bitmap of n bits gets n + 2 rounds, as each round starts
-- behind a bit of the bitmap that is set; a walk along a list of n entries takes n + 1 rounds,
-- and a loop around an exchange one round when no other thread runs; the loop of __rb_insert
-- takes at most a round for each node above the new one and one more, as does that of
-- ____rb_erase_color above the hole that is left; and a descent or a loop over a tree of n
-- nodes n + 1. A loop that runs out of fuel gives `none`.
--
-- Not modelled: compiler attributes and barriers, which have no effect on one thread; the
-- big-endian branches, which this port does not compile; of bitmap.c the shifts, the parsing
-- and printing, remap, onto, fold and the regions, with the inline wrappers of bitmap.h; the
-- callbacks of augmented trees; the loops of hashtable.h over all buckets; of rculist.h the
-- splices and the hash lists; radix-tree.c and sort.c; runs of several threads elsewhere; and
-- main.c, which prints what the libraries do.
pub mod Prelude
pub mod Bits
pub mod Word
pub mod Memory
pub mod Bitops
pub mod FindBit
pub mod Bitmap
pub mod Log2
pub mod Hash
pub mod ListHead
pub mod Hlist
pub mod HashTable
pub mod Rculist
pub mod Llist
pub mod Rbtree
pub mod MyRbtree
