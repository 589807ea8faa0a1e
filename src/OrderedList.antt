-- ===== src/OrderedList.antt =====
-- cds/ordered_list: sets and maps as sorted linked lists.
pub mod Michael
